-- ===== src/Lib.antt =====
-- PondSec NDR, a network detection and response plugin: what decides whether an address is blocked.
--
-- The service (src/usr/local/share/pondsec-ndr/pondsec_ndr/service.py) reads events, runs detectors,
-- correlates detections into incidents and answers them. The response package decides who may be
-- blocked: the policy gives its reasons, the engine writes block entries into the database and runs
-- commands on the packet filter. Paths below are relative to that package.
--
-- Python: what the program takes from the language. `Result` has the exceptions as values, `Value` the
--   JSON values, `Float` a double as its bits with the operations given, `Ipaddress` networks as
--   ranges of numbers, whose texts the library reads and prints, and is_private_ip of schema.py.
-- Config (config.py): the records of settings; `validate`; `Load` has load_config with _bool, _int and
--   _csv; `Learning` has DetectionConfig.learning_status.
-- Schema (schema.py): the event, valid_ip, valid_port and parse_timestamp.
-- Normalizer (normalizers/suricata.py): `Metadata` has what each type of record gives, the parent
--   normalize_eve.
-- Privacy (privacy.py): sanitize_for_export.
-- Detection (detection/): `Make` and `Explain` have make_detection (base.py), `Groups` the dictionaries
--   of sets that detectors build, `Scans`, `Windows`, `Beaconing` and `Imported` the twelve detectors
--   (detectors.py), `Run` the loop over the enabled ones.
-- Storage (storage/database.py): the rows as records, a table as the list of its rows. `Blocks` has
--   add_block_entry to expire_block_entries, `Allowlist` the allowlist, `Incidents` the status changes,
--   the deletion and the reset, `Baselines` the baselines of hosts and the scores against them,
--   `Related`, `Evidence` and `Merging` insert_incidents and merge_incidents.
-- Response: `Evidence` and `Policy` (response/policy.py), `Pf` (response/pf.py), `Target` and `Engine`
--   (response/engine.py). An operation of the engine takes the store and the commands run so far, and
--   gives the result or the exception beside what it has written.
-- Collector (collectors/): `Eve` has EveCollector.read_once, with `Parse` for what a line becomes by
--   json.loads and normalize_eve; `FilterLog` has FilterLogCollector.read_once, where what a line parses
--   to is a parameter, of lines that its csv reader splits. A file is the lines that reading from a byte
--   gives.
-- Correlation: `Risk` (risk.py), `Cases`, `Roles` and `Incidents` (correlation.py): the grouping of
--   detections, the roles of the addresses, and the incident that a case becomes.
-- Service (service.py): `Rate` has _limit_rate, `Pipeline` the filters and the choice of detectors,
--   `AutoResponse` has _auto_response.
--
-- Moments are natural numbers of microseconds, and the clock and the ids that uuid4 gives are
-- arguments; one call takes the clock as one moment. Every loop is over a list, so there is no fuel.
-- Python's floats, the printing and parsing of numbers and addresses, the table of private ranges,
-- json.loads and the commands of the operating system are parameters, and the theorems hold for all
-- of them. A command answers or raises OSError; that it runs into its timeout is left out.
--
-- Not modelled: the command line, diagnostics, the sensor, the windows of features, the models, the
-- look-up of CVEs, the writing of exports, and the migration and dashboard of the database. JSON
-- details of audit records and fields that only repeat arguments are left out.
-- Samples and Examples try the theorems on one concrete machine.
mod Prelude
pub mod Python
pub mod Config
pub mod Schema
pub mod Normalizer
pub mod Detection
pub mod Storage
pub mod Response
pub mod Collector
pub mod Correlation
pub mod Privacy
pub mod Service
mod Samples
mod Examples
