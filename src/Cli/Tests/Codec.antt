-- ===== src/Cli/Tests/Codec.antt =====
-- A concrete text for a `TestHostContext`: what it is made of, numbers after numbers.
use play_evmone.Base.{
  ℕ, zero, suc, ◌≡◌, refl, ap, subst, Option, none, some, List, [], ◌∷◌, ◌++◌, length,
}
use mathlib.Core.List.{append-nil, append_assoc}
use play_evmone.HashMap.{HashMap}
use play_evmone.Bytes.{FixedBytes, JsonBytes}
use play_evmone.Host.{Value, LogEntry, AccountData, TestHostContext}

pub record Codec (A : Type 0) : Type 0 where
  pub put : A → List ℕ
  pub read : List ℕ → A × List ℕ
  pub read-put : (a : A) (rest : List ℕ) → read (put a ++ rest) ≡ (a, rest)

-- What was written is read back, with nothing left.
pub read-put_whole : {A : Type 0} (c : Codec A) (a : A) → (c.read (c.put a)).0 ≡ a
read-put_whole {A} c a =
    ap (λ (p : A × List ℕ). p.0)
      (subst (λ (t : List ℕ). c.read t ≡ (a, [])) (append-nil (c.put a)) (c.read-put a []))

abbrev read_nat : List ℕ → ℕ × List ℕ
read_nat [] = (0, [])
read_nat (n ∷ rest) = (n, rest)

abbrev nat : Codec ℕ
nat = record { put = λ n. n ∷ []; read = read_nat; read-put = λ n rest. refl }

module _ {A B : Type 0} (c : Codec A) where
  -- A type that is written as another one.
  abbrev as_codec : (to : B → A) (from : A → B) → ((b : B) → from (to b) ≡ b) → Codec B
  as_codec to from e = record {
    put = λ b. c.put (to b);
    read = λ t. (from (c.read t).0, (c.read t).1);
    read-put = λ b rest. rw (c.read-put (to b) rest, e b) refl;
  }

  abbrev pair : Codec B → Codec (A × B)
  pair d = record {
    put = λ p. c.put p.0 ++ d.put p.1;
    read = λ t. (((c.read t).0, (d.read (c.read t).1).0), (d.read (c.read t).1).1);
    read-put = λ p rest.
        rw
          (
            append_assoc (c.put p.0) (d.put p.1) rest,
            c.read-put p.0 (d.put p.1 ++ rest),
            d.read-put p.1 rest,
          )
          refl;
  }

module _ {A : Type 0} (c : Codec A) where
  abbrev put_all : List A → List ℕ
  put_all [] = []
  put_all (x ∷ xs) = c.put x ++ put_all xs

  abbrev read_all : ℕ → List ℕ → List A × List ℕ
  read_all zero t = ([], t)
  read_all (suc n) t = ((c.read t).0 ∷ (read_all n (c.read t).1).0, (read_all n (c.read t).1).1)

  pub read_all-put_all :
      (xs : List A) (rest : List ℕ) → read_all (length xs) (put_all xs ++ rest) ≡ (xs, rest)
  read_all-put_all [] rest = refl
  read_all-put_all (x ∷ xs) rest =
      rw
        (
          append_assoc (c.put x) (put_all xs) rest,
          c.read-put x (put_all xs ++ rest),
          read_all-put_all xs rest,
        )
        refl

  abbrev read_list : List ℕ → List A × List ℕ
  read_list [] = ([], [])
  read_list (n ∷ t) = read_all n t

  abbrev list : Codec (List A)
  list = record {
    put = λ xs. length xs ∷ put_all xs;
    read = read_list;
    read-put = read_all-put_all;
  }

abbrev to_list : {A : Type 0} → Option A → List A
to_list none = []
to_list (some a) = a ∷ []

abbrev first : {A : Type 0} → List A → Option A
first [] = none
first (a ∷ rest) = some a

pub first-to_list : {A : Type 0} (o : Option A) → first (to_list o) ≡ o
first-to_list none = refl
first-to_list (some a) = refl

abbrev option : {A : Type 0} → Codec A → Codec (Option A)
option c = as_codec (list c) to_list first first-to_list

abbrev fixed : {n : ℕ} → Codec (FixedBytes n)
fixed = as_codec (list nat) (λ x. x.bytes) (λ bs. record { bytes = bs }) (λ x. refl)

abbrev json_bytes : Codec JsonBytes
json_bytes = as_codec (list nat) (λ x. x.bytes) (λ bs. record { bytes = bs }) (λ x. refl)

abbrev hash_map : {K V : Type 0} → Codec K → Codec V → Codec (HashMap K V)
hash_map k v =
    as_codec (list (pair k v)) (λ m. m.entries) (λ es. record { entries = es }) (λ m. refl)

abbrev value : Codec Value
value =
    as_codec (pair fixed nat) (λ v. (v.value, v.modify_time))
      (λ p. record { value = p.0; modify_time = p.1 }) (λ v. refl)

abbrev log_entry : Codec LogEntry
log_entry =
    as_codec (pair json_bytes (list fixed)) (λ l. (l.bytes, l.topics))
      (λ p. record { bytes = p.0; topics = p.1 }) (λ l. refl)

abbrev pub account_data : Codec AccountData
account_data =
    as_codec
      (pair nat
        (pair fixed (pair (option json_bytes) (pair (hash_map fixed value) (list log_entry)))))
      (λ a. (a.nonce, (a.address, (a.code, (a.storage, a.logs)))))
      (λ p. record {
        nonce = p.0;
        address = p.1.0;
        code = p.1.1.0;
        storage = p.1.1.1.0;
        logs = p.1.1.1.1;
      })
      (λ a. refl)

abbrev pub context : Codec TestHostContext
context =
    as_codec (pair nat (pair fixed (pair (hash_map fixed account_data) (list fixed))))
      (λ c. (c.depth, (c.current_account, (c.accounts, c.destructed_accounts))))
      (λ p. record {
        depth = p.0;
        current_account = p.1.0;
        accounts = p.1.1.0;
        destructed_accounts = p.1.1.1;
      })
      (λ c. refl)
