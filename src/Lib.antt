-- ===== src/Lib.antt =====
-- pywings is a daemon that runs game servers on a host for a Panel: it keeps a registry of servers,
-- starts and stops their processes in a sandbox, streams their output, serves their files to the Panel
-- and over SFTP, updates their configuration, and pulls the images that they run in. This library
-- models the daemon's core and proves what makes it correct.
--
-- The parts, with the files of the repository they come from:
--   * Events (wings/events.py): the bus. `subscribe`, `unsubscribe`, `add_callback`, `remove_callback`
--     and `publish` are the methods of ServerEventBus; queues and callbacks are numbers.
--   * Servers (wings/servers.py): the registry and its JSON file, ServerStore. `load` is `_load`, `save`
--     is `_save`; the other operations have the names of the methods, and Synced has the file's text.
--   * Activity (wings/activity.py): the queue of ActivityManager, `record_event` and `flush`;
--     Addresses has `_sanitize_ip`.
--   * Processes (wings/processes.py): ProcessManager. Config has `_limits` and `validate_configuration`,
--     State the state, Status `set_server_state` and `stats`, Start `start` and `_start_locked`, Stop
--     `stop`, `kill`, `restart`, `remove` and `send_command`, Watch `_watch` and `_auto_restart_worker`,
--     Limits `_enforce_limits` on the readings of a process, with the limits as numbers already. What
--     a boot makes of a configuration is in Ports (`_publishes`), Environment (`_environment` and
--     `_apply_java_environment`), Mounts (`_volumes`) and Launch (`_startup`, `_runtime_identity`,
--     `_entrypoint`, and the order of `_start_locked` as `prepare`). The other files below Processes
--     prove. Reach has the manager as a system of steps, methods and the parts between their locks.
--   * Filesystem (wings/filesystem.py): `path`, `write`, `rename`, `delete` and `create_directory` of
--     ServerFilesystem, on a disk that is a list of paths with their nodes; Copying has `copy`, Mime
--     `detect_mime`, Backups the rules of `create_backup` and the members of its archive, as a function
--     from names.
--   * Sftp (wings/sftp.py): the methods of PteroSFTPInterface as `perform` on requests. Permissions has
--     `_has_perm`, Handles the reads and writes of PteroSFTPHandle, Login `check_auth_password` and the
--     session that `_handle_client` makes of it, Sessions the session, its open files and
--     `_log_activity`, Modes the bits of permissions that `open` sets.
--   * Parser (wings/parser.py): ConfigParser. Values has `resolve_value`, Properties
--     `_update_properties` and `_matches_if_value`, Trees `_update_json` and `_update_yaml`, Parser
--     itself `_update_text`, `_update_file` and `update_configuration_files`.
--   * Oci (wings/oci): Reference is OciReference of reference.py, where `show` is `__str__` and
--     `lookup_name` is `reference`, with the cache's key of image.py; Manifest is ManifestParser of
--     manifest.py, Config its ImageConfig and `get_default_platform`; Cache is ContentAddressableCache of
--     cache.py, on the disk of Filesystem; Auth is RegistryAuthManager of auth.py, where `header_for` is
--     `get_auth_header` for a key of the cache.
--   * Cluster (wings/cluster.py): `send_frame`, `recv_exact` and `recv_frame`, on a stream of bytes that
--     arrive in pieces.
--   * Updater (wings/updater.py): `parse_version` and `check_update`.
-- Prelude has the tests, lists, texts and dicts that the parts share, Json the values of `json`, Numbers
-- the parsing of numbers by int() and float(), Result the exceptions. Tests has concrete runs.
--
-- The process manager holds the registry, the bus and the activity log, as the program's objects hold
-- each other, and passes them to their own operations; a session of SFTP holds the activity log. What
-- the manager reads from the host and from the Panel during one operation is a record Host, and each
-- step of a run has its own; what other threads do while `stop` waits is a function on the state. A
-- method is a function on the state, as it works undisturbed, and one step of the bus, the registry
-- and the activity log. The manager holds its lock around parts of its methods only, `kill` and the
-- watchers among them, and Reach has these parts as steps of their own. A watcher whose configuration
-- cannot be read makes no step.
-- `boots` of Host stands for everything between the check of a configuration and the new process, and
-- for its outcome only; `prepare` of Launch models what is computed there, up to the image and the
-- sandbox.
-- Times are whole milliseconds, those of tokens whole seconds. A process is a number that is never
-- used again, as a Popen object is only itself. The texts of errors are left out of messages, and log
-- files are left out. The bits of permissions are left out of the file system, where Modes says what
-- SFTP sets, and links are on no disk: `resolve` follows them where the program does. A `limits` that `_limits` cannot read
-- counts as no limit in `stats`. A "uuid" of servers.json that is no text is passed over by `load`.
-- The locks of servers and the caches of the processor's and the disk's readings are left out of the
-- manager. JSON numbers are whole numbers. White space and lower case are those of ASCII.
--
-- Code outside the repository is a parameter: `is_uuid4` for UUID(...).version, Regex for `re`,
-- `resolve` for Path.resolve, `dumps` and `loads` for json in frames and in the registry's
-- file, JsonText for json in the cache, `guess_type` for mimetypes, `ip_address` for the addresses of ports and `is_address` for those of
-- events, Formats for json and yaml in configuration files, Encoding for UTF-8, `fetch` for the
-- requests of tokens, and `panel` for the Panel's answer to a login.
--
-- Fuel: `recv_missing` has as many rounds as bytes are missing, and each reads one at least; `decimal`
-- of Numbers has one round more than the number's size, and each divides by ten; `free_path` has one
-- round more than the disk has entries, and the names that it tries are all different.
--
-- Not modelled: installation and the readings of /proc; listings, uploads and archives of files, the
-- restoring of backups; the extraction of layers and the requests to registries; the
-- sockets of SFTP and the sessions of the cluster; the sandbox runtime; the HTTP API and the Panel's
-- client; the updates themselves, the tunnel, configuration, logging and diagnostics.
pub mod Prelude
pub mod Result
pub mod Numbers
pub mod Json
pub mod Events
pub mod Servers
pub mod Activity
pub mod Processes
pub mod Filesystem
pub mod Oci
pub mod Cluster
pub mod Updater
pub mod Sftp
pub mod Parser
pub mod Tests
