-- ===== src/Lib.antt =====
-- A verification library for K3DF, a capture-the-flag exercise with an automatic defender.
--
-- Parts of the program. The referee (referee/service.py) holds three secret flags and judges the
-- candidates that a competitor posts. The defender (defender/) reads evidence from the web server's
-- log and from the scanner, keeps a graph of what an attacker has reached and the state of the
-- three flags, asks a model for an analysis, and executes the scenarios proposed there, of which
-- only temporary blocks of addresses do something; nginx asks it for each request whether the
-- address is blocked.
--
-- Files.
--   Base, Json, Text   shared: lists, results that may raise, sets of texts, signed integers; JSON
--                      values, dicts, doubles; what is used of Python's str and int
--   Referee            referee/service.py. Files: read_flag, validate_state_directory, the file
--                      system's answers. State: Referee, _load, _save, submit, authorized. Start:
--                      Referee.__init__. Diagnostic: the text of an InitializationError, and main.
--                      Http: the handler's do_GET and do_POST. The other modules under Referee hold
--                      the proofs, named for what they prove
--   Defender.Address   what is used of the standard library's ipaddress
--   Defender.Config    defender/config.py: _networks and Config.from_env
--   Defender.Policy    defender/policy.py: validate_scenario, block_ip, active_block
--   Defender.Graph     defender/capability_graph.py: default_graph and normalize_graph; Observe has
--                      apply_observation, apply_system_evidence and derived_depths
--   Defender.Flags     defender/capability_graph.py: normalize_flags, apply_flag_evidence
--   Defender.Kimi      defender/kimi.py: the request and validate_result; analyze stands in
--                      Service.Cycle
--   Defender.Evidence  defender/collectors.py: the evidence item, ignored_source, aggregate
--   Defender.Service   defender/service.py: the state, execute_scenarios and auth. Upsert: _upsert.
--                      Updates and Analysis: apply_analysis. Context: context. Cycle: one reasoning
--                      of tick. Tick: tick and do_GET. Run: main, as turns of ticks and requests.
--                      Written: the documents that event and save write. Steps: relations that
--                      sequences of statements keep. The others hold proofs
--   Defender.Store     defender/state_store.py: default_state, load, _migrate, save
--   Defender.Collect   defender/collectors.py: collect, and how _access_log follows the log file.
--                      Pattern: ACCESS_PATTERN. Url: what is used of urllib.parse. Sources: the items
--                      of _access_log and of _scanner_result. Lines, Odd and Reported hold proofs
--   Credential         challenge-ap2-ssh/credential.py
--   Scanner            scanner/scanner.py: scan_sql_injection. Report: main, the document and its file
--   Ssh                challenge-ap2-ssh/server.py, probe.py and selftest.py. The others hold proofs
--   Dashboard          dashboard/app.py: the events, the fallbacks and reasoning_snapshot. Snapshot:
--                      defender_snapshot. Request: SUSPICIOUS_REQUEST. Activity: activity_snapshot.
--                      Health: health_snapshot and status. LastLine has the appended
--                      event file. The others hold proofs
--   Web                web/app.py: init_db, index, health, sitemap and customer
--   Provision          ctf/provision.py; a file's text is its code points
--   Tests, GraphTests, FlagTests, StoreTests, LoopTests, ViewTests, ScannerTests  runs at concrete inputs
--
-- The dashboard reads the defender's state and events and the web server's log, and changes
-- nothing. The web application holds the account that the SSH service of challenge-ap2-ssh
-- verifies, from one environment variable. The defender reads the file that the scanner writes.
--
-- Conventions. A step that changes state takes the state and returns the new one with its
-- answer; a Python exception is a value of type Error. JSON text is read and written by the
-- standard library, so a document is a value: an object is a list of keys and values in
-- insertion order. Natural numbers are unbounded, as Python's are. A finite double is an
-- integer number of units of 2^-1074, the smallest one, so that comparisons are exact;
-- int-to-float conversion rounds to 53 bits and overflows from 2^1024 on, as Python's does. A
-- time is a number of microseconds, and an expiry a number of seconds, since the source prints
-- it with whole seconds; printing a time is the parameter iso, and printing a network the
-- parameter text. Reading a text as a double, in float(confidence), is the parameter parse.
-- White space is Unicode's, around the number of an ASCII text C's. Digits and case are those
-- of ASCII, except in a line of the access log, where the decimal digits of all scripts are a
-- parameter. The record of a block is copied where the source shares it: the evidence of an
-- earlier block of an address keeps its raw data when a later one updates the record. A text
-- has no lone surrogates. The records World and Library hold what the defender uses of Python's
-- library and of the model's API. Python 3.11's urlsplit is modelled with its test for a
-- bracket without the other; its further checks of an authority are the parameter checks.
--
-- Bounds. All loops are recursions on lists. The only fuel is the count of binary digits of a
-- number below 2^1024, where 1025 rounds are enough since a round halves the number, the 33
-- prefixes that a netmask may have, and the digits of a number n that is printed, where n + 1 rounds
-- are enough since a round divides by 8 or 10.
--
-- Not modelled. Sockets, paths, threads and printing, but for the referee's diagnostic: the lock
-- makes each tick and each auth one step. A write of the event log that fails midway, and leaves
-- part of a line. The scanner's printed text. SQLite: the query of the demo application is run by
-- a parameter.
pub mod Base
pub mod Json
pub mod Text
pub mod Referee
pub mod Defender
pub mod Credential
pub mod Scanner
pub mod Ssh
pub mod ScannerTests
pub mod Dashboard
pub mod Web
pub mod Provision
pub mod Tests
