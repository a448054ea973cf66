-- ===== src/Host/Update.antt =====
-- src/main.rs, `TestHostContext::update`, and the other methods that no callback is.
use play_evmone.Base.{
  ◌≡◌, refl, sym, ◌∙◌, Bool, true, false, ◌||◌, List, [], ◌∷◌, length, ltb, if◌then◌else◌,
  Bool-cases, inl, inr, ℕ,
}
use play_evmone.Base.Outcome.{Outcome, returns, panic, destructed_length, invalid_state}
use play_evmone.HashMap.{HashMap, contains_key}
use play_evmone.HashMap.Laws.{get-insert}
use play_evmone.Bytes.{fixed_bytes_eq, Address, fixed_eq}
use play_evmone.Host.{
  AccountData, TestHostContext, check_destructed, update, update_code, contract_exists,
}

-- Some address of the list still has an account.
abbrev pub any_alive : List Address → HashMap Address AccountData → Bool
any_alive [] accounts = false
any_alive (a ∷ l) accounts = contains_key a accounts || any_alive l accounts

check_destructed_lem :
    (l : List Address) (accounts : HashMap Address AccountData)
    → check_destructed l accounts
      ≡ (if any_alive l accounts then panic invalid_state else returns tt)
unfolding check_destructed
check_destructed_lem [] accounts = refl
check_destructed_lem (a ∷ l) accounts = elim (Bool-cases (contains_key a accounts)) [
  | inl e ↦ rw e
  | inr e ↦ rw e (check_destructed_lem l accounts)
]

-- The context that takes over the accounts and the destructed accounts of another.
abbrev pub taken_over : TestHostContext → TestHostContext → TestHostContext
taken_over self other = record self {
  accounts = other.accounts;
  destructed_accounts = other.destructed_accounts;
}

pub update_lem :
    (self other : TestHostContext)
    → update self other ≡ (
        if ltb (length other.destructed_accounts) (length self.destructed_accounts)
        then panic destructed_length
        else if any_alive other.destructed_accounts other.accounts
        then panic invalid_state
        else returns (taken_over self other))
unfolding update
update_lem self other = elim (Bool-cases (any_alive other.destructed_accounts other.accounts)) [
  | inl e ↦ rw (check_destructed_lem, e)
  | inr e ↦ rw (check_destructed_lem, e)
]

both_passed :
    (shorter alive : Bool) {x y : TestHostContext}
    → ◌≡◌ {A = Outcome TestHostContext}
        (if shorter
          then panic destructed_length
          else if alive
          then panic invalid_state
          else returns x)
        (returns y)
    → (y ≡ x) × (alive ≡ false)
both_passed true alive h = cc
both_passed false true h = cc
both_passed false false h = (cc, refl)

-- A context is taken over only if none of its destructed accounts is still there.
pub update_returns :
    (self other : TestHostContext) {self' : TestHostContext}
    → update self other ≡ returns self'
    → (self' ≡ taken_over self other) × (any_alive other.destructed_accounts other.accounts ≡ false)
update_returns self other h = both_passed _ _ (sym (update_lem self other) ∙ h)

-- The code of an account is what `contract_exists` asks for.
pub contract_exists-update_code :
    (s : TestHostContext) (a b : Address) (code : List ℕ)
    → contract_exists (update_code a code s) b
      ≡ (if fixed_eq a b then true else contract_exists s b)
unfolding contract_exists update_code
contract_exists-update_code s a b code = elim (Bool-cases (fixed_eq a b)) [
  | inl e ↦ rw (get-insert a b _ s.accounts, e)
  | inr e ↦ rw (get-insert a b _ s.accounts, e)
]
