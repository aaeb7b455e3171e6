-- ===== src/Lib.antt =====
-- MiniDock: a self-hosted deployment panel. A control plane keeps applications and their
-- deployments in SQLite, builds and starts containers, and watches remote agents.
--
-- The parts and their files, with paths from the repository's root:
--
-- * internal/store/store.go, the database. Store/Tables holds the rows; a table is a list of rows,
--   and a SQL statement a function on that list (Prelude/Rows: UPDATE is update_where, SELECT is
--   where_rows, ORDER BY is sort_by, LIMIT 1 OFFSET n is row_at). A method takes the clock where
--   the source reads time.Now, and returns the table with the call's result. A method's guards and
--   the constraints of the schema that it can break (the partial unique index over active jobs, the
--   foreign key to applications) are tests of the definition. Store/Jobs is the queue
--   (QueueDeployment, NextQueuedDeployment, HeartbeatDeployment), Store/Endings how a job ends
--   (CancelDeployment, FinishDeployment, RecoverInterruptedDeployments, DeleteDeployments),
--   Store/Releases the queries for rollback targets and retention, and Store/Lifecycle all calls as
--   one step function with the invariant. Store/Unlock, Store/Webhooks and Store/Nodes are the
--   lockouts, the replay guard with the rate limit, and the enrolled agents; Store/Alerts the
--   operational alerts and Store/Health the evidence of the health of applications. Store/Secrets
--   is the encrypted secrets with their audit and the public configuration, Store/Settings the
--   settings with the salt and the verifier of the master password, and Store/Applications the
--   table of applications. A job of Store/Jobs is claimed and ended by calls of Store/Endings on
--   the same table; Store/Lifecycle is where they meet.
--
-- * internal/deploy/executor.go. Deploy/Failures has the classified errors, the stage timeouts and
--   the choice of a runtime, and Deploy/Contract the configuration and the result of a release;
--   Deploy/Host is the interface to the docker command and the proxy adapter, with the documented
--   behaviour of each command that the executor gives as laws (IsDocker); Deploy/Containers has the
--   names, addresses and health of an application's containers; Deploy/Network is the network of
--   the releases (ensureDockerNetwork), Deploy/EnvFile the file with a release's environment
--   (runtimeEnvFile), and Deploy/Arguments the arguments of `docker run` and their check.
--   Deploy/Switch is DockerAdapter.Start, and Deploy/Reconcile is Reconcile; both work on the
--   containers that the other leaves. Deploy/Source is the checkout of the source, on an interface
--   to files, git and builds (Workshop), Deploy/Adapters the choice of the runtime's adapter,
--   Deploy/Building the arguments of a build, and Deploy/Release is Deploy with its build and the
--   switch, Rollback and VerifyArtifact. Deploy/Memory is a host in memory for the tests, with a
--   workshop in Deploy/Release/Memory. Deploy/Release/Through says once which ways a release can
--   end.
--
-- * internal/app/cicd.go. App/Worker is runNextDeployment: it claims a job of Store/Jobs, asks the
--   executor, an interface there, and ends the job; what other workers, heartbeats and operators do
--   to the store meanwhile is a list of calls of Store/Lifecycle. queue_loop there is queueLoop
--   over a list of ticks, App/Decisions is what the worker decides by a job and the error of its
--   run, and App/Queueing is queueDeploymentRef. App/Worker/Released puts Deploy and Rollback of
--   Deploy/Release in the place of that interface. App/Configuration is the configuration and the
--   evidence of a release, and App/Webhook is githubWebhook, which uses the replay guard, the rate
--   limit and the queue of the store; App/References has its tests on the commit, the repository
--   and the reference that a push names.
--
-- * internal/app/server.go. App/Access is the setup, the unlock, the lock, the sessions and the
--   CSRF check, on the lockouts and the settings of the store; App/Environment is
--   deploymentConfiguration, which opens the secrets of a release. Handlers run one after the
--   other.
--
-- * internal/app/operations.go. App/Retention is runRetention, which drops old jobs of the store
--   with their images and logs. App/Collection is runCollection, which reads the jobs and raises
--   the alerts of the store; what it asks the executor, the disk and the certificates is an
--   Observer.
--
-- * internal/backup/format.go is Backup/Format, on the calls of internal/security/crypto.go in
--   Backup/Cipher, where AES-GCM is an interface.
--
-- * internal/runtime/template.go is Runtime/Templates, without the texts of the Dockerfiles, and
--   internal/runtime/detect.go is Runtime/Detection.
--
-- Times are nanoseconds as natural numbers, a NULL is an option, durations are signed
-- (Prelude/Int), and ids and counters do not wrap around. A new rowid is a parameter `next_id`,
-- with SQLite's documented choice, a number above every id in use, as its hypothesis. The loops run
-- over lists; waitHealthy runs over the answers that it gets before its context ends. The only
-- bound is in Prelude/Decimal, which prints at most nineteen digits, as many as an int64 has.
--
-- Not modelled: failures of the database engine itself (a statement that the schema allows
-- succeeds), the other HTTP handlers and the HTML views, the container engine and the proxy (they
-- are the interface of Deploy/Host), git and the build command, JSON, HMAC, PBKDF2 and hashes
-- (parameters), the log and the stage tracker, the Cloudflare API, S3, TLS, and the programs under
-- cmd and scripts.
pub mod Prelude
pub mod Store
pub mod Runtime
pub mod Deploy
pub mod App
pub mod Backup
