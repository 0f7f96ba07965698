-- ===== src/Lib.antt =====
-- Postal DNSBL Monitor: a job that checks the sending addresses of a Postal mail server against DNS
-- block lists, lowers the priority of the listed ones in Postal's database and keeps a Jira issue for
-- each of them.
--
-- A run reads the rows of postal.ip_addresses (src/services/database.py) and takes each through
-- `process_ip` (src/main.py): it asks every DNSBL zone for the address (src/services/dns_checker.py,
-- which tells the health tracker of each check), decides on a transition
-- (src/models/state_transition.py), applies it to the row by one UPDATE, and opens, comments or closes
-- the Jira issue of the address (src/services/jira_client.py, each call decorated by
-- src/utils/retry.py). At the end the tracker (src/services/health_tracker.py) gives a summary of the
-- zones' health.
--
-- Files, each with the source that it models:
--   Common                   helpers: texts as lists of code points, Python's sorting, sets, split,
--                            join, dict and json.dumps, integers, and `Exec`, state and exceptions
--                            as values
--   Models/DnsResult         src/models/dns_result.py
--   Models/IpRecord          src/models/ip_record.py
--   Models/StateTransition   src/models/state_transition.py; Decision and Delta are proofs
--   Models/DnsblHealth       src/models/dnsbl_health.py, the record of a zone; Report has the two methods
--                            `to_json`, Record proofs
--   Utils/Retry              src/utils/retry.py; Runs and Cost are proofs
--   Utils/IpUtils            src/utils/ip_utils.py; Reversal has proofs
--   Utils/NetworkCheck       src/utils/network_check.py
--   Services/HealthTracker   src/services/health_tracker.py; Counts and Summary are proofs
--   Services/Database        src/services/database.py; Transactions, Updates, Edits and Zones
--                            are proofs
--   Services/DnsChecker      src/services/dns_checker.py; Verdicts, Results and Coverage are proofs
--   Services/HealthReporter  src/services/health_reporter.py, the pruned configuration and the JSON
--                            report
--   Services/JiraClient      src/services/jira_client.py; Latest, Cost and Answers are
--                            proofs
--   Services/Logger          src/services/logger.py, the entries of the log; Setup has proofs
--   Config                   src/config.py, with the reading of variables in Environment; Valid and
--                            Errors are proofs
--   Main                     `process_ip` of src/main.py, with its data in Records; Job is the loop of
--                            `main` over the records, Program `main` itself, with its proofs in
--                            Program/Dry, Program/Summary and Program/Ending;
--                            Frames, Refinement, Convergence, Runs, Counting, Lifecycle, History, Cost,
--                            Idle and Live are proofs
--   Examples                 concrete inputs for the theorems
--
-- A method that changes `self` is an action `Exec S A`: from a state to a result or an exception, and
-- the new state, which is kept also where an exception is raised. A `World` is the database, the state
-- of the Jira server, the tracker and the log; `zoom` runs the action of a part in it.
--
-- What is not code of this repository is a parameter: the DNS resolver, the Jira server with its
-- library, PyYAML, the text of a float in JSON, what python-json-logger puts into a line, the
-- equality of MySQL's collation, what `urlparse` and `parsed.port` raise for a DSN (`dsn_error`),
-- what `dns.resolver.Resolver()` raises in the supplemental check (`new_resolver`), and what MySQL
-- and its driver raise at each step of a connection. In `check_dnsbl` the exception of `Resolver()`
-- is `no_resolver`, which no handler there takes. A commit that raises is taken to have committed
-- nothing. The digits of other scripts than ASCII, which Python's `int` reads, and its limit of 4300
-- digits are left out. Clocks, the name and the text of an exception, and the order in which the
-- checks of an address complete are arguments. A check is one step at its completion: that two
-- workers may change the counters of one zone at the same time is left out, as a zone that is
-- configured once has one check for each address.
--
-- The loop of the retry decorator runs on the number of attempts that are left, from max_retries + 1;
-- no other loop needs a bound.
--
-- Main/Program takes what a run finds outside as one record, `Outside`. Its log holds the entries of
-- src/services/logger.py, without the durations.
--
-- Not modelled: the log lines that are plain text, the writing of the log, and what the parsing of the
-- DSN gives to the driver.
pub mod Common
pub mod Models
pub mod Utils
pub mod Services
pub mod Config
pub mod Main
pub mod Examples
