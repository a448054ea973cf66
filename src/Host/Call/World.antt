-- ===== src/Host/Call/World.antt =====
-- The changes that the test host makes to its accounts and to its list of destructed accounts, as a
-- step relation.
use play_evmone.Base.{
  ℕ, ◌≡◌, refl, ap, ◌∙◌, sym, true, Option, none, some, List, [], ◌∷◌, ◌++◌, Bool-cases, inl, inr,
  if◌then◌else◌,
}
use mathlib.Core.List.{append-nil, append_assoc}
use play_evmone.HashMap.{get, insert, found_or, is_some}
use play_evmone.HashMap.Laws.{get-insert, get-empty}
use play_evmone.Bytes.{fixed_bytes_eq, Address, Bytes32, JsonBytes, fixed_eq, fixed_eq_iff}
use play_evmone.Host.{
  Value, LogEntry, AccountData, new_account, TestHostContext, new_context, account_entry,
  set_account,
}

-- What the host does to one account.
pub data AccountStep (acc : AccountData) : AccountData → Type 0 where
  same : AccountStep acc acc
  store :
      (k : Bytes32) (val : Value)
      → AccountStep acc (record acc { storage = insert k val acc.storage })
  log : (entry : LogEntry) → AccountStep acc (record acc { logs = acc.logs ++ entry ∷ [] })
  set_code : (code : JsonBytes) → AccountStep acc (record acc { code = some code })

-- What the host does to its context: to an account, which it creates if it is not there; to the
-- list of destructed accounts, by appending; to what belongs to one call only.
pub data Step (s : TestHostContext) : TestHostContext → Type 0 where
  account :
      (a : Address) {acc : AccountData}
      → AccountStep (account_entry a s) acc
      → Step s (set_account a acc s)
  destruct :
      (a : Address) → Step s (record s { destructed_accounts = s.destructed_accounts ++ a ∷ [] })
  enter : (d : ℕ) (a : Address) → Step s (record s { depth = d; current_account = a })

pub data Evolves (s : TestHostContext) : TestHostContext → Type 0 where
  here : Evolves s s
  next : {t u : TestHostContext} → Evolves s t → Step t u → Evolves s u

-- What was there is there.
abbrev pub Stays {ℓ} : {A : Type ℓ} → Option A → Option A → Type 0
Stays none o = Unit
Stays (some a) o = is_some o ≡ true

Stays-refl {ℓ} : {A : Type ℓ} (o : Option A) → Stays o o
Stays-refl none = tt
Stays-refl (some a) = refl

Stays-trans {ℓ} : {A : Type ℓ} (o p q : Option A) → Stays o p → Stays p q → Stays o q
Stays-trans none p q h k = tt
Stays-trans (some a) none q h k = cc
Stays-trans (some a) (some b) q h k = k

Stays-set {ℓ} : {A : Type ℓ} (o : Option A) (a : A) → Stays o (some a)
Stays-set none a = tt
Stays-set (some b) a = refl

-- An account that has grown: nothing of it is lost but the values in its storage.
pub record Extends (acc acc' : AccountData) : Type 0 where
  pub nonce : acc'.nonce ≡ acc.nonce
  pub address : acc'.address ≡ acc.address
  pub logs : (extra : List LogEntry) × (acc'.logs ≡ acc.logs ++ extra)
  pub code : Stays acc.code acc'.code

Extends-refl : (acc : AccountData) → Extends acc acc
Extends-refl acc = record {
  nonce = refl;
  address = refl;
  logs = ([], sym (append-nil acc.logs));
  code = Stays-refl acc.code;
}

Extends-trans : {a b c : AccountData} → Extends a b → Extends b c → Extends a c
Extends-trans {a} {b} {c} p q = record {
  nonce = q.nonce ∙ p.nonce;
  address = q.address ∙ p.address;
  logs = (
    p.logs.0 ++ q.logs.0,
    q.logs.1 ∙ ap (λ l. l ++ q.logs.0) p.logs.1 ∙ append_assoc a.logs p.logs.0 q.logs.0,
  );
  code = Stays-trans a.code b.code c.code p.code q.code;
}

AccountStep-Extends : {acc acc' : AccountData} → AccountStep acc acc' → Extends acc acc'
AccountStep-Extends {acc} same = Extends-refl acc
AccountStep-Extends {acc} (store k val) = record {
  nonce = refl;
  address = refl;
  logs = ([], sym (append-nil acc.logs));
  code = Stays-refl acc.code;
}
AccountStep-Extends {acc} (log entry) = record {
  nonce = refl;
  address = refl;
  logs = (entry ∷ [], refl);
  code = Stays-refl acc.code;
}
AccountStep-Extends {acc} (set_code code) = record {
  nonce = refl;
  address = refl;
  logs = ([], sym (append-nil acc.logs));
  code = Stays-set acc.code code;
}

-- Every entry, those that would be created included, has grown.
abbrev pub EntriesExtend : TestHostContext → TestHostContext → Type 0
EntriesExtend s t = (a : Address) → Extends (account_entry a s) (account_entry a t)

-- No account is lost.
abbrev pub AccountsStay : TestHostContext → TestHostContext → Type 0
AccountsStay s t = (a : Address) → Stays (get a s.accounts) (get a t.accounts)

abbrev pub DestructedGrow : TestHostContext → TestHostContext → Type 0
DestructedGrow s t =
    (extra : List Address) × (t.destructed_accounts ≡ s.destructed_accounts ++ extra)

-- An account that is there has this address.
abbrev AddressIs : Address → Option AccountData → Type 0
AddressIs a none = Unit
AddressIs a (some acc) = acc.address ≡ a

-- Every account that is stored has the address that it is stored under.
abbrev pub IsKeyed : TestHostContext → Type 0
IsKeyed s = (a : Address) → AddressIs a (get a s.accounts)

pub account_entry-set_account :
    (a b : Address) (acc : AccountData) (s : TestHostContext)
    → account_entry b (set_account a acc s) ≡ (if fixed_eq a b then acc else account_entry b s)
account_entry-set_account a b acc s = elim (Bool-cases (fixed_eq a b)) [
  | inl e ↦ rw (get-insert a b acc s.accounts, e)
  | inr e ↦ rw (get-insert a b acc s.accounts, e)
]

Step-EntriesExtend : {s t : TestHostContext} → Step s t → EntriesExtend s t
Step-EntriesExtend {s} (account a {acc} st) b = elim (Bool-cases (fixed_eq a b)) [
  | inl e ↦
      rw (account_entry-set_account a b acc s, e, ← (fixed_eq_iff a b).0 e) (AccountStep-Extends st)
  | inr e ↦ rw (account_entry-set_account a b acc s, e) (Extends-refl (account_entry b s))
]
Step-EntriesExtend {s} (destruct a) b = Extends-refl (account_entry b s)
Step-EntriesExtend {s} (enter d a) b = Extends-refl (account_entry b s)

Step-AccountsStay : {s t : TestHostContext} → Step s t → AccountsStay s t
Step-AccountsStay {s} (account a {acc} st) b = elim (Bool-cases (fixed_eq a b)) [
  | inl e ↦ rw (get-insert a b acc s.accounts, e) (Stays-set (get b s.accounts) acc)
  | inr e ↦ rw (get-insert a b acc s.accounts, e) (Stays-refl (get b s.accounts))
]
Step-AccountsStay {s} (destruct a) b = Stays-refl (get b s.accounts)
Step-AccountsStay {s} (enter d a) b = Stays-refl (get b s.accounts)

Step-DestructedGrow : {s t : TestHostContext} → Step s t → DestructedGrow s t
Step-DestructedGrow {s} (account a st) = ([], sym (append-nil s.destructed_accounts))
Step-DestructedGrow {s} (destruct a) = (a ∷ [], refl)
Step-DestructedGrow {s} (enter d a) = ([], sym (append-nil s.destructed_accounts))

pub Evolves-EntriesExtend : {s t : TestHostContext} → Evolves s t → EntriesExtend s t
Evolves-EntriesExtend {s} here a = Extends-refl (account_entry a s)
Evolves-EntriesExtend (next r st) a =
    Extends-trans (Evolves-EntriesExtend r a) (Step-EntriesExtend st a)

pub Evolves-AccountsStay : {s t : TestHostContext} → Evolves s t → AccountsStay s t
Evolves-AccountsStay {s} here a = Stays-refl (get a s.accounts)
Evolves-AccountsStay {s} (next {t} {u} r st) a =
    Stays-trans (get a s.accounts) (get a t.accounts) (get a u.accounts) (Evolves-AccountsStay r a)
      (Step-AccountsStay st a)

pub Evolves-DestructedGrow : {s t : TestHostContext} → Evolves s t → DestructedGrow s t
Evolves-DestructedGrow {s} here = ([], sym (append-nil s.destructed_accounts))
Evolves-DestructedGrow {s} (next r st) =
    let (xs, e) = Evolves-DestructedGrow r in
    let (ys, f) = Step-DestructedGrow st in
    (xs ++ ys, f ∙ ap (λ l. l ++ ys) e ∙ append_assoc s.destructed_accounts xs ys)

-- The entry of an address, where a new account stands in for one that is not there.
found_or-AddressIs :
    (a : Address) (o : Option AccountData)
    → AddressIs a o
    → (found_or (new_account a) o).address ≡ a
found_or-AddressIs a none h = refl
found_or-AddressIs a (some acc) h = h

pub set_account-IsKeyed :
    (a : Address) (acc : AccountData) (s : TestHostContext)
    → acc.address ≡ a
    → IsKeyed s
    → IsKeyed (set_account a acc s)
set_account-IsKeyed a acc s e h b = elim (Bool-cases (fixed_eq a b)) [
  | inl f ↦ rw (get-insert a b acc s.accounts, f) (e ∙ (fixed_eq_iff a b).0 f)
  | inr f ↦ rw (get-insert a b acc s.accounts, f) (h b)
]

Step-IsKeyed : {s t : TestHostContext} → Step s t → IsKeyed s → IsKeyed t
Step-IsKeyed {s} (account a {acc} st) h =
    set_account-IsKeyed a acc s
      ((AccountStep-Extends st).address ∙ found_or-AddressIs a (get a s.accounts) (h a)) h
Step-IsKeyed (destruct a) h = h
Step-IsKeyed (enter d a) h = h

pub Evolves-IsKeyed : {s t : TestHostContext} → Evolves s t → IsKeyed s → IsKeyed t
Evolves-IsKeyed here h = h
Evolves-IsKeyed (next r st) h = Step-IsKeyed st (Evolves-IsKeyed r h)

pub Evolves-trans : {s t u : TestHostContext} → Evolves s t → Evolves t u → Evolves s u
Evolves-trans r here = r
Evolves-trans r (next q st) = next (Evolves-trans r q) st

pub new_context-IsKeyed : (d : ℕ) (c : Address) → IsKeyed (new_context d c)
new_context-IsKeyed d c a = rw (get-empty a) tt
