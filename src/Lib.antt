-- ===== src/Lib.antt =====
-- GPTSessionBridge: a bridge that lets an app-server client talk to a native Codex child and to Web
-- models behind one connection.
--
-- Protocol models packages/protocol/src/native-messaging.ts, errors.ts and safe-text.ts: the frames
-- and what the schemas accept. A value whose shape is no frame's is `none`.
-- Link models packages/native-messaging/src/link/link-session.ts, `NativeLinkSession`: `start`,
-- `receive`, `send_application`, `send_heartbeat` and `close`, each a function of the session that
-- returns a result and the session after it. Link/Run applies any sequence of calls.
-- Namespace models packages/core/src/model-namespace.ts and the token pattern of
-- packages/core/src/security/capability-token.ts. Values holds the dynamic values that the router
-- reads, with the property operations that it uses.
-- Routing models packages/core/src/routing: Registry is model-registry.ts, and the other files are
-- thread-router.ts. Prepare is prepareThreadLifecycle, Settle is settleThreadLifecycle and the
-- methods that forget, Validate the checks that write nothing, State the private bookkeeping, Keys
-- the serialized request ids, Params, Decide and Inject the reading, the decision and the injection
-- of a route. Routing/Run applies any sequence of calls.
--
-- Transport models packages/native-messaging/src/transport and apps/bridge/src/transport: Decoder is
-- native-message-decoder.ts, Lines is jsonl-decoder.ts, and Pump is the queue that
-- native-message-writer.ts and jsonl-writer.ts share, with the two writers over it in Writer. Bytes
-- are numbers. `read` and `print` stand for UTF-8 and JSON, which are not part of the repository; the
-- stream and the event loop are a sequence of events. A decoder that is fed chunk by chunk hands out
-- what each push returns, up to the first that throws (Outcome). A write that is refused at once has
-- no ticket: it is a result, not an entry of the pump's `settled`.
-- Relay models apps/native-host/src/protocol/native-host-relay.ts over two sessions of Link, with
-- the tables of packages/native-messaging/src/link/relay-policy.ts in Link/Policy.
-- Catalog models packages/core/src/catalog: Cursors is opaque-cursor-store.ts, Virtual is
-- virtual-model.ts, and Models, Merge, Paging and Setup are model-catalog.ts. The clock, the entropy
-- and the source of models are arguments of each call.
-- Activation models apps/browser-extension/src/activation/tool-activation-lease.ts with the snapshots
-- of apps/browser-extension/src/protocol/tool-activation.ts; the clock is a function of how often it
-- was read.
--
-- The loop of the frame decoder is on fuel, one more than the bytes, which is enough since each
-- round takes more than four of them. A cursor has eight attempts, as in the source. The digits of
-- a number are written on fuel n + 1, which is enough since each digit divides n by
-- ten. All other loops are structural.
--
-- Not modelled: containsPrivateProviderMaterial and the refusal of cyclic values in the router; the
-- parsing of URLs, which is a parameter; the Windows IPC helper, the tool workflow, and the
-- applications beside the relay, the line transport and the activation lease.
pub mod Shared
pub mod Protocol
pub mod Link
pub mod Values
pub mod Namespace
pub mod Routing
pub mod Transport
pub mod Relay
pub mod Catalog
pub mod Activation
