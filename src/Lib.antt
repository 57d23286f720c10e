-- ===== src/Lib.antt =====
-- A model of the core of PowerSimData (powersimdata/), which prepares and keeps track of scenarios of
-- power grid simulations, and of what makes it correct.
--
-- The program has a data store that many clients share, two tables in it that list the scenarios
-- and their status, a change table in which a user collects changes to a grid, and a transformation
-- that applies the change table to the grid.
--
-- - Prelude: exceptions as results, Python's dictionaries and the tests on them.
-- - Number: the arithmetic of floating point numbers is an interface; no law of it is assumed
--   where a result does not say so.
-- - DataAccess (powersimdata/data_access/data_access.py, fs_helper.py): the class SSHDataAccess. The
--   package `fs` is the interface FileSystem, which Memory shows can be met. The state is the server
--   and the local disk; what the blob containers hold is a parameter, and so is the hash.
--   The lock file of a push is empty and used by nothing else, and directories are not modelled: a file
--   can be written wherever its path is.
-- - CsvStore (data_access/csv_store.py): tables in csv files, with the decorator verify_hash.
--   `parse` and `to_csv` stand for pandas.
-- - ScenarioList, ExecuteList (data_access/scenario_list.py, execute_list.py): the two managers.
-- - Grid (input/abstract_grid.py): data frames as lists of rows.
-- - Ct: the dictionary of changes, with the keys that the transformation of a grid reads.
-- - TransformGrid (input/transform_grid.py): Scale has the scalings and removals, Add the additions,
--   Apply the storage units and the composition. The reactance of a new branch, haversine distance
--   times reactance per distance, is a parameter.
-- - ChangeTable (input/change_table.py; bus.py, plant.py, storage.py, demand_flex.py in input/changes/):
--   methods as state passing functions, with the caches of transformed tables, which a method that
--   raises leaves as Python leaves them. Calls has the sequences of calls that a client can make. The
--   order in which Python goes through a set is a parameter, as are the angle of two points on the
--   sphere and the versions of profiles on the server. Ids of a table are without repetition.
-- - GridCheck (input/check.py): check_grid, and the checks of areas and resources. The number of
--   connected components, which networkx counts, is a parameter.
-- - Electrification (input/changes/electrification.py): the adoption rates of electrified demand.
-- - InputData (input/input_base.py, input_data.py): change tables and grids of scenarios, with the cache in
--   memory. Unpickling is a parameter.
-- - Configure (input/configure.py): what is set in a grid before a simulation.
-- - TransformProfile (input/transform_profile.py): the profiles of renewable resources and of demand for a
--   transformed grid. What is read from csv files, the slicing by dates and the electrified demand are
--   left to arguments.
-- - CleanCapacity (design/generation/clean_capacity_scaling.py): Zones has the targets of zones, Shortfall the
--   arithmetic of the two methods, Factors the change table.
-- - Scenario (scenario/state.py, scenario.py, create.py, analyze.py, execute.py, delete.py): the states of a
--   scenario, with the lists of allowed states that belong to the classes. Interconnect (network/helpers.py),
--   Builder and GetBuilder are what a client sets; Creation is create_scenario, a sequence of steps on a
--   session (the object, the classes, the data store), each of which may raise and leave the rest
--   undone. Run, Created, Stored and Steps follow the steps; Registration, Returns, Partial, Raised and
--   Failure say what comes out. Preparation is prepare_simulation_input, with Kept, Prepared and PrepareAgain; Deletion and
--   Deleted are delete_scenario; Gates has the status gates. The two lists, the change tables and the
--   simulation inputs lie on one server: contents are of one type, and each table has its own parser and
--   printer. Loading is what the state execute loads at the end of `create_scenario`, with Loaded, after
--   the object has its new class; for the other switches the outcome of the loading is an argument.
--
-- Every loop of the modelled code runs over a list, so that no fuel is needed but for decimal numbers,
-- where the number itself is enough. Ids are natural numbers. What pandas does to
-- the cells of a table that is read or extended (missing columns, types) belongs to the parameters that
-- parse and print. The tables of plants and of costs have one index, without a repetition and without
-- missing values. Not modelled: move_scenario, the reading
-- of profiles, grids and output from files, the checks of plants and dates in input/check.py, the SQL
-- store, the launchers, most of network/ and design/, and output/.
pub mod Prelude
pub mod DataAccess
pub mod Configure
pub mod CsvStore
pub mod ScenarioList
pub mod ExecuteList
pub mod InputData
pub mod Number
pub mod Grid
pub mod Ct
pub mod TransformGrid
pub mod TransformProfile
pub mod ChangeTable
pub mod GridCheck
pub mod Scenario
pub mod Electrification
pub mod CleanCapacity
