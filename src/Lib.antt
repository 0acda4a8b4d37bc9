-- ===== src/Lib.antt =====
-- policy-evaluator evaluates Kubewarden policies, which are Wasm modules. A caller gives an admission
-- request and settings to an evaluator, a runtime runs the policy, and the answer becomes a
-- Kubernetes admission response, on which a policy server then puts its own constraints. While it
-- runs, a policy can ask its host for data, by requests on a callback channel. Policies stand alone
-- or as the members of a group, whose expression decides by the verdicts of the members.
--
-- Which file models which part:
--   * Prelude: native numbers and lists, `Result` with do blocks, maps as association lists with one
--     entry for a key, signed integers, and texts.
--   * Json: the parts of serde_json, json_patch and base64 that are used, as a record of operations
--     and a record of what their documentation promises; Json/Sample is a stand-in for both.
--   * Response: src/admission_response.rs. `from_policy_validation_response` with its patch and its
--     status, `reject` and `reject_internal_server_error`.
--   * PolicyId and Handler: src/admission_response_handler.rs and the files below it.
--     `process_response` composes monitor mode, the mutation constraint and the custom message.
--   * Metadata: src/policy_metadata.rs. Metadata/Resources has the loop of `validate_resources`,
--     whose local variables are the record `Scan`.
--   * Context: src/evaluation_context.rs, the allow list of a policy.
--   * Request: src/admission_request.rs and src/policy_evaluator.rs, requests and settings.
--   * Callback: src/callback_requests.rs and src/runtimes/callback.rs. `host_callback` returns its
--     answer and the list of the requests that it put on the channel; the other end of the channel
--     is a function from requests to replies.
--   * Group: src/policy_group_evaluator.rs and the files below it. The shared table of results is
--     passed explicitly; the Rhai engine is a function that gives for an expression a tree of calls,
--     a `Script`, which Group/Engine runs.
--   * Rego: src/runtimes/rego. Rego/Inventory has both inventories of Kubernetes objects, Rego/Fetch
--     the requests of context_aware.rs, Rego/Cache the cache of Gatekeeper inventories, passed
--     explicitly with a clock, a function from the moments of a call to instants, Rego/Build
--     `Stack::build_kubernetes_context`, and Rego/Runtime `Runtime::validate`, with the evaluator it
--     leaves; `unreachable!()` and a panic of the evaluator are values.
--   * Marshal: what the runtimes of waPC and WASI share, the reading of the answer of a guest.
--   * Wasi: src/runtimes/wasi_cli. Wasi/Pipe is the standard input of a program, a queue of bytes;
--     Wasi/HostCall the function `host.call` with its reads of the memory of the guest, where an
--     `i32` is its bit pattern and a panic is a value; Wasi/Stack the preparation and the run, which
--     gives nothing when a function of the host panics in it;
--     Wasi/Runtime the validation.
--   * Wapc: src/runtimes/wapc. The stack with its reset; a call of the guest leaves the host in
--     another state, so that operations return the stack that they leave.
--   * Evaluator: src/policy_evaluator and src/runtimes.rs. The dispatch over the three runtimes, the
--     creation from a prepared policy (Evaluator/Builder), and the members of a group that these
--     evaluators make if no guest panics (Evaluator/Calm, Evaluator/Members). Evaluator/Libraries and
--     Wasm name the third-party code.
--   * Crypto: src/callback_handler/crypto.rs, the check of certificates.
--   * Kubernetes: src/callback_handler/kubernetes.rs and the files below it. The client keeps the
--     resources that it knows and its reflectors; an operation returns the client that it leaves, and
--     Kubernetes/Client/Interleaving has the steps of concurrent calls and of the reflectors' tasks.
--     What the cluster answers during a call, and when, is the record `Cluster`.
--   * CallbackHandler: src/callback_handler.rs, src/callback_handler/oci.rs and
--     src/callback_handler/sigstore_verification.rs. `handle_request` answers one request; a task that
--     panics sends nothing. The attribute `cached` is what a cache has for a key when a call is made.
--   * ArtifactHub and Constants: src/policy_artifacthub.rs and src/constants.rs, the package file that
--     is made of the metadata of a policy.
--   * Burrego: crates/burrego/src/errors.rs, builtins/glob.rs and builtins/regex.rs, the functions
--     that a Rego policy calls for globs and regular expressions; stack_helper.rs, policy.rs,
--     opa_host_functions.rs, evaluator.rs and evaluator_builder.rs, which drive a policy in Wasm. The
--     record `Guest` is wasmtime and serde_json; what runs against its store gives a result and the
--     store, or nothing when the host panics. The loop of `read_string` is recursion on the number of
--     addresses that are left. The counter of open delimiters
--     is an integer without a bound, which an `i32` holds for templates of less than 2^31 characters.
--
-- Other loops are structural recursion over the lists that the program walks, so that none needs fuel.
-- The order in which a hash map is walked is that of its association list. A function that returns
-- early with an error leaves no state behind where its caller drops the state. Strings are compared
-- by the native equality. Status codes are numbers that the program only passes on.
--
-- Not modelled: Serde's derived conversions (parameters where code depends on them), logging and
-- tracing, the Wasm engines, the builtins of Rego for encoding, versions, time, patches and sprintf (the
-- evaluator of burrego is an interface of the Rego runtime, which gives nothing where it panics), the loop of the callback handler with its tasks, channels and builder, and what fills the
-- caches of the attribute `cached`.
-- The evaluators of a group share one cache of inventories, which Evaluator/Members
-- holds fixed during the validation of a group.
pub mod Prelude
pub mod Json
pub mod Response
pub mod PolicyId
pub mod Handler
pub mod Metadata
pub mod Context
pub mod Request
pub mod Callback
pub mod Group
pub mod Rego
pub mod Marshal
pub mod Wasm
pub mod Wasi
pub mod Wapc
pub mod Evaluator
pub mod Crypto
pub mod Constants
pub mod ArtifactHub
pub mod Burrego
pub mod Kubernetes
pub mod CallbackHandler
