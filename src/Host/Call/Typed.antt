-- ===== src/Host/Call/Typed.antt =====
-- src/main.rs, `TestHostContext::call`: what it is given, and the types of the program.
pub mod Calls
use play_evmone.Base.{
  All-take, All-drop, ℕ, zero, suc, ◌<◌, ◌≡◌, refl, sym, subst, ◌∙◌, Bool, true, false, Option,
  none, some, List, [], ◌∷◌, length, take, drop, replicate, All, arith, if◌then◌else◌, ◌&&◌, map,
  length-take, length-drop,
}
use play_evmone.Base.Outcome.{Outcome, returns, returns-injective, unwrap}
use play_evmone.HashMap.{get}
use play_evmone.HashMap.Entries.{Holds, get-Holds}
use play_evmone.Bytes.{
  Uint256, IsByte, FfiBytes, Address, JsonBytes, fixed_bytes_eq, default, from_ffi, into_ffi,
}
use play_evmone.Evmc.{
  Revision, is_success, FfiMessage, FfiResult, ExecutionMessage, ExecutionResult, result_into_ffi,
  message_from_ffi,
}
use play_evmone.Evmc.Message.{Digests, is_create, create_address, destination_elim}
use play_evmone.Evmc.Interface.{Action, HostInterface, get_interface}
use play_evmone.Evmc.Vm.{Script, EvmcVm, run, execute}
use play_evmone.Evmc.Typed.{
  IsArray, MessageTyped, ResultTyped, Any, Speaks, Gives, Gives-bind, Gives-bind_value, Types,
  HostTyped, run-Types,
}
use play_evmone.Host.{AccountData, TestHostContext, account_entry, nonce_u256, update, update_code}
use play_evmone.Host.Methods.{get_storage}
use play_evmone.Host.Update.{update_returns}
use play_evmone.Host.Typed.{
  ArrayTyped, nonce_u256-All, IsArray-zeros, IsArray-replicate, CodeTyped, AccountTyped,
  ContextTyped, account_entry-Typed, set_account-Typed, update_code-Typed,
}
use play_evmone.Host.Typed.Methods.{
  get_storage-Typed, set_storage-Typed, emit_log-Typed, selfdestruct-Typed,
}
use play_evmone.Host.Call.{
  Externals, host_context, callee_code, code_in, code_of, target, with_sender, redirected,
  callee_context, finished, call_body, call,
}
use play_evmone.Host.Call.Sound.{unwrap-eq}

pub record ExecutionTyped (r : ExecutionResult) : Type 0 where
  pub output_data : All IsByte r.output_data
  pub create_address : ArrayTyped r.create_address
  pub padding : IsArray 4 r.padding

-- What is asked of the crates: RLP encodes bytes as bytes, a hash of bytes has 32 bytes, and the
-- machine passes on values of the right
-- types, if its message, its code and the answers to it are such values.
pub record ExternalsTyped (ext : Externals) : Type 0 where
  pub rlp_list :
      (parts : List (List ℕ)) → All (All IsByte) parts → All IsByte (ext.digests.rlp_list parts)
  pub keccak : (text : List ℕ) → All IsByte text → IsArray 32 (ext.digests.keccak text)
  pub machine :
      (f : Revision → FfiMessage → List ℕ → Script)
      → ext.evmone.execute ≡ some f
      → (revision : Revision) (m : FfiMessage) (code : List ℕ) → MessageTyped m
      → All IsByte code
      → Speaks (f revision m code)

All-map_from_ffi :
    (xs : List (FfiBytes 32)) → All (λ t. IsArray 32 t.bytes) xs → All ArrayTyped (map from_ffi xs)
All-map_from_ffi [] h = tt
All-map_from_ffi (x ∷ xs) h = (h.0, All-map_from_ffi xs h.1)

-- The interface of the test host, if its calls keep to the types.
pub host_context-HostTyped :
    (callee : ExecutionMessage → Action TestHostContext ExecutionResult)
    → ((m : ExecutionMessage) → MessageTyped m.inner → Types ContextTyped ExecutionTyped (callee m))
    → HostTyped ContextTyped (get_interface (host_context callee))
unfolding get_storage
host_context-HostTyped callee typed = record {
  account_exists = λ a h s t. (tt, t);
  get_tx_context = λ s t. (
    record {
      tx_gas_price = IsArray-zeros 32;
      tx_origin = IsArray-replicate 20 (omega arith);
      block_coinbase = IsArray-zeros 20;
      block_difficulty = IsArray-zeros 32;
      chain_id = IsArray-zeros 32;
    },
    t,
  );
  get_storage = λ a k ha hk s t. get_storage-Typed (from_ffi a) (from_ffi k) s t;
  set_storage = λ a k v ha hk hv. set_storage-Typed (from_ffi a) (from_ffi k) (from_ffi v) ha hk hv;
  get_balance = λ a h s t. (IsArray-zeros 32, t);
  call = λ m h s t.
      Gives-bind ExecutionTyped ResultTyped ContextTyped (callee (message_from_ffi m) s) _
        (typed (message_from_ffi m) h s t)
        λ r s' hr t'. (
          record {
            output_data = hr.output_data;
            create_address = hr.create_address;
            padding = hr.padding;
          },
          t',
        );
  emit_log = λ a d ts ha hd ht.
      emit_log-Typed (from_ffi a) d (map from_ffi ts) ha hd (All-map_from_ffi ts ht);
  get_code_size = λ a h s t. (omega arith, t);
  get_code_hash = λ a h s t. (IsArray-zeros 32, t);
  get_block_hash = λ n s t. (IsArray-zeros 32, t);
  selfdestruct = λ a b ha hb. selfdestruct-Typed (from_ffi a) (from_ffi b) ha;
  copy_code = λ a o b ha hb s t. (omega arith, t);
}

create_address-Typed :
    (ext : Externals) (sender : FfiBytes 20) (nonce : Uint256)
    → ExternalsTyped ext
    → All IsByte sender.bytes
    → All IsByte nonce.bytes
    → ArrayTyped (create_address ext.digests sender nonce)
unfolding create_address
create_address-Typed ext sender nonce typed hs hn =
    let text = ext.digests.rlp_list (sender.bytes ∷ nonce.bytes ∷ []) in
    let hash = ext.digests.keccak text in
    let (size, are_bytes) = typed.keccak text (typed.rlp_list _ (hs, (hn, tt))) in
    (
      omega (arith, size, length-drop 12 hash, length-take 20 (drop 12 hash)),
      All-take IsByte 20 _ (All-drop IsByte 12 _ are_bytes),
    )

module _ (ext : Externals) (typed : ExternalsTyped ext) where
  pub target-Typed :
      (m : ExecutionMessage) (s : TestHostContext)
      → MessageTyped m.inner
      → ArrayTyped (target ext m s)
  target-Typed m s h =
      let nonce = nonce_u256 (account_entry (from_ffi m.sender) s) in
      destination_elim ArrayTyped ext.digests m nonce
        (create_address-Typed ext m.sender nonce typed h.sender.1 (nonce_u256-All _))
        (IsArray-zeros 20) h.destination

  pub callee_code-Typed :
      (m : ExecutionMessage) (a : Address) (s : TestHostContext) {code : List ℕ}
      → MessageTyped m.inner
      → ContextTyped s
      → callee_code m a s.accounts ≡ returns code
      → All IsByte code
  unfolding callee_code code_in code_of
  callee_code-Typed m a s {code} h t e =
      go (is_create m) (get a s.accounts)
        (get-Holds ArrayTyped AccountTyped a s.accounts t.accounts) e
    where
      returned : {xs : List ℕ} → All IsByte xs → returns xs ≡ returns code → All IsByte code
      returned q e = subst (All IsByte) (returns-injective e) q

      of : (c : Option JsonBytes) → CodeTyped c → code_of c ≡ returns code → All IsByte code
      of none q e = cc
      of (some c) q e = returned q e

      stored :
          (o : Option AccountData)
          → Holds (ArrayTyped {n = 20}) AccountTyped o
          → code_in o ≡ returns code
          → All IsByte code
      stored none q e = cc
      stored (some acc) q e = of acc.code q.code e

      go :
          (b : Bool) (o : Option AccountData)
          → Holds (ArrayTyped {n = 20}) AccountTyped o
          → (if b then returns m.input_data else code_in o) ≡ returns code
          → All IsByte code
      go true o q e = returned h.input_data e
      go false o q e = stored o q e
