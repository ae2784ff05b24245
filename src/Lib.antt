-- ===== src/Lib.antt =====
-- Tasker RFID: stock control from tag reads.
--
-- Readers publish reads of tags and the beams of a gate. `ingest` checks each message and stores it
-- in reads_raw or gate_events. The `debouncer` follows reads_raw by a cursor, folds the reads of one
-- tag at one portal into a group, closes a group that has gone quiet, gives it the direction of the
-- gate's crossing and writes it to observations, the cursor in the same transaction. The `state
-- engine` takes each observation that is not processed, decides what it means for the container, and
-- in one transaction changes containers.status, writes movements or an anomaly, and marks the
-- observation processed. A person may correct a status by hand. The `api` opens and closes dispatch
-- sessions, to which the state engine attributes what leaves, registers containers and puts them on
-- pallets, counts what stands on the floor, and resolves anomalies, with a correction if a person asks
-- for one. `sync` copies the tables to a replica, page by page from a cursor that stands there beside
-- the rows. The api also reports the stock on hand, what each customer has taken, and whether the
-- readers and the services keep up. `seed` loads the SKUs and customers that the API looks up, and the
-- simulator publishes reads of made-up passes and the events of the gate.
--
-- Files, and the code that they are about (paths under src/tasker_rfid/services):
-- Schema            the tables of migrations/versions/0001_initial_schema.py
-- Retry             with_retry of state_engine/service.py and debouncer/service.py
-- Ingest            Validation: ingest/validation.py: parse_read, parse_gate_event; Service:
--                   validate_batch, write_batch and writer_loop of ingest/service.py
-- Debouncer         Grouping: debouncer/grouping.py; Direction: debouncer/direction.py;
--                   Service: absorb and close_quiet_groups of debouncer/service.py; Commit:
--                   resolve_directions, commit, run and the final flush; Config:
--                   config.py (one level up) and Debouncer.__init__
-- StateEngine       Transitions: state_engine/transitions.py; Store: the SQL statements of
--                   state_engine/service.py; Engine: the transaction of handle; Service: handle,
--                   should_wait and run; Corrections: state_engine/corrections.py
-- Api               the routers in api/routers: Sessions: dispatch_sessions.py; Containers:
--                   containers.py; Counts: cycle_counts.py; Queue: anomalies.py; Stock: stock.py;
--                   Reports: reports.py and the totals of dispatch_sessions.py; Health: health.py
--                   and the health section of config.py
-- Sync              Tables: sync/tables.py; Read: read_batch of sync/service.py; Write:
--                   upsert_statement and send_batch; Cycle: sync_table, run_once and the delays of run
-- Seed              seed.py (one level up): the checks, the conversions and the upserts
-- Simulator         simulator/model.py: gate_crossing and merge; Reads: its pass_reads and
--                   stray_reads; Publisher: simulator/publisher.py; Commands: simulator/cli.py
-- The other modules below these hold proofs, and each Examples module applies them to a small case.
--
-- A table is the list of its rows in the order of the primary key, and a statement is a function on
-- it. A service object is a record of what it keeps in memory. Times are whole microseconds, which is
-- what a datetime holds, as natural numbers; `a - b > p` is written `b + p < a`, and a margin that
-- the source takes off one side is added to the other. A text that is only read by people (a log
-- line, the reason of a decision, an exception's message) is left out or is a constructor that holds
-- the values in it. A KeyError is `none`.
--
-- What comes from outside is an argument: the clocks, a request to stop, the faults that the
-- attempts of with_retry meet. An attempt that is rolled back writes nothing, which is what the
-- database promises of a transaction, but leaves what it did to the counters; a commit whose answer
-- is lost has written everything and is repeated. What the other services commit while the state
-- engine sleeps after a failed attempt, and between its rounds, is a function on the tables. The
-- debouncer's commit reads nothing that the others write, so what they write while it is repeated
-- comes with what they write between its rounds. While sync runs, its local table may be another
-- one at each cycle. The columns created_at and updated_at, which the database fills, are left out
-- but for the stamps that sync reads: that seed writes a row again, and so stamps it again, is not
-- seen. The batches that the queue of ingest gives, how each of its transactions ends, and what the
-- two databases do while sync copies a table are arguments too, and so are the keys and times that
-- the database gives a new row. The gaps that a rollback leaves in a sequence of keys are not
-- modelled. str.strip, str.upper and datetime.fromisoformat are the fields of a record that the
-- functions of ingest take, json.loads is an argument of its service, and str.lower, str.isdigit
-- and int are the fields of a record of Seed. A handler of the API that raises HTTPException
-- changes nothing, so it is a result without tables. The number of rows of a page, BATCH_ROWS, is
-- an argument of what sync does. The order that the database gives to texts is an argument of the
-- queries that sort by a name, and the time zone and the clock of a report are fields of a record.
-- What a simulated reader hears is an argument of the simulator, which draws it at random in
-- floating point, and so are json.dumps and isoformat.
--
-- The recursive query over parent_id has no bound in the source; here it makes at most as many
-- rounds as there are containers, which no stack without a cycle is deeper than. The simulator's
-- loops over the time of a pass run on as many rounds as the pass has microseconds, which is enough
-- for any step of one at least. Nothing else runs on fuel: a round of a service goes once over its
-- rows, and the rounds that a service runs before it is stopped, with what the others do between
-- them, are a list that is an argument.
--
-- Not modelled: the MQTT client, the queue and the threads of ingest; the listings of the API, and its
-- pages; the physics and the random numbers of the simulator, its command line and its pacing; reading
-- CSV and YAML files; logging, connections and statistics.
pub mod Prelude
pub mod Schema
pub mod Retry
pub mod Ingest
pub mod StateEngine
pub mod Sync
pub mod Api
pub mod Seed
pub mod Simulator
pub mod Debouncer
