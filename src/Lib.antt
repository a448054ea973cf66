-- ===== src/Lib.antt =====
-- play-evmone runs Ethereum contracts on the virtual machine evmone, over a host that keeps its
-- accounts in memory and in a JSON file.
--
-- The program's parts, and where they are modelled:
-- * src/evmc.rs, the byte types and their JSON text (`impl_convert!`, `impl_serde!`, `parse_bytes`),
--   with `JsonBytes` and `parse_bytes` of src/main.rs: Bytes and its children. `FixedBytes n` is the
--   struct that the macro makes of `[u8; n]`; `visit_str` is the visitor over a parser;
--   `parse_fixed` and `parse_json_bytes` are the two functions named `parse_bytes`.
-- * src/evmc.rs, messages and results: Evmc and Evmc/Message. The ffi structs are those of
--   include/evmc/evmc.h.
-- * src/evmc.rs, the trait `HostContext` and `get_interface`: Evmc/Interface. A callback takes the
--   state behind its context pointer and returns the changed one.
-- * src/evmc.rs, `EvmcVm`: Evmc/Vm. The machine is foreign. What it does on a message is a
--   parameter: a `Script`, the tree of the callbacks that it makes, each with what follows on every
--   answer. `run` makes the callbacks on a host, and Evmc/Keeps has the rule for its invariants.
-- * src/main.rs, `Value`, `AccountData`, `TestHostContext` and its methods: Host and Host/Methods
--   (every callback but `call`), with proofs in Host/Slots, Host/Update and Host/Nonce.
-- * src/main.rs, `TestHostContext::call`: Host/Call. `call_body` is the body over the interface that
--   the callee calls back; `call` ties the knot. World has the steps that the host makes, Trace and
--   Sound follow a call through them, Invariants, Commit, Destructed and Fuel draw the conclusions.
-- * src/evmc.rs, `HostContextPtr` and `HostContextWrapper`: Evmc/Pointers, over a heap of boxes in
--   which an address is a number; to use an address whose box is not there is the panic `dangling`.
--   Host/Call/Pointers is `call` over the heap, `self` being behind a pointer, and Cli/Pointers the
--   execution that "create" and "call" make. Everywhere else a context is passed as
--   a value; Evmc/Simulates and the two files Refines compare the two.
-- * src/main.rs, `main` without the subcommand ethabi: Cli (the closure `get_context`, `load_binary`
--   and what the subcommands share) and Cli/Commands (one function each, and `main`). The files are
--   a map from paths to contents. Runs takes a run that ends well apart; Files and Sessions are
--   about what it writes and what the next one reads, Ends about its end, Errors about the errors
--   it hands back. Arguments has the declarations of the arguments.
-- * src/abi.rs, encoding and decoding: Abi (`parse_tokens` and the encode functions) and Abi/Decode
--   (the decode functions). `parse_token` and `show_token` are the closures in them. Abi/Text has
--   what the standard library does with texts there. Proofs are in Abi/Words, Abi/Panics,
--   Abi/Text/Json and Abi/Decode/Shown.
-- * src/abi_cmd.rs, the subcommand ethabi: AbiCmd (`sub_command`, `process`, `remove_0x`), with
--   proofs in AbiCmd/Panics and AbiCmd/Unreadable. Clap has the declarations of arguments and what
--   clap promises for them.
-- * build.rs, the search for the library: Build.
--
-- The standard library's `HashMap` is HashMap, an association list with its laws; the program
-- relies on no order of iteration. Base has the shared names, signed integers and `Outcome`: a
-- value, a panic by the place that raises it, or fuel used up. A panic ends the process (the
-- callbacks are `extern "C"`), so it leaves no state.
--
-- Numbers. Bytes are numbers, with their range in `HasSize`; what the types of the program say of
-- the values of the model is in Evmc/Typed and Host/Typed (`ContextTyped`), and Host/Call/Typed is
-- about calls that keep to it. `usize` and `u64` have 64 bits: `modify_time` wraps as in a release
-- build (a debug build panics at the addition). `depth` of a message holds the bits of its
-- `int32_t`, of which the host makes a `u32`. The fuel of `call` bounds how deep calls nest. The
-- Ethereum virtual machine makes no call beyond depth 1024, so 1025 are enough for a call of depth
-- 0, and 1024 for the interface that the command line executes its message of depth 0 on.
--
-- Parameters, with what is assumed of them as hypotheses: the functions of the crate hex (`Hex`,
-- `IsHex`), rlp and keccak_hash (`Digests`), the machine (`EvmcVm`; `Obeys` where its depth limit
-- is needed; `ExternalsTyped` where the types of values are), for the command line what clap and
-- serde_json do (`Matches`, `Conforms`, `Library`, `IsJson`, `Json`, `Refuses`), the crates ethabi
-- and ethereum_types (`Ethabi`, `U256`, `IsU256`, `AddEnds`), and the surroundings of the build
-- script (`Environment`). The tests hold concrete instances of all of them.
--
-- Not modelled: messages of progress that are printed, and how clap parses arguments; what
-- the release function of a result does, which the program only passes on; the dispatch of `main` to
-- the subcommand ethabi; the C headers themselves.
pub mod Base
pub mod HashMap
pub mod Bytes
pub mod Evmc
pub mod Host
pub mod Clap
pub mod Cli
pub mod Abi
pub mod AbiCmd
pub mod Build
