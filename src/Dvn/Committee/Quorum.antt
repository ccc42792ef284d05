-- ===== src/Dvn/Committee/Quorum.antt =====
-- What a verification of signatures shows, and when it succeeds.
use lz_v2_audit.Prelude.{
  ℕ, zero, suc, ◌≤◌, ◌<◌, ◌≡◌, ◌⊎◌, inl, inr, refl, not, true, false, Option, some, List, [], ◌∷◌,
  All, contains, length, ltb, leb, le→leb, ok, ok_or, require, ◌&&◌, >>=-eq-ok, require-eq-ok,
  ok_or-eq-ok, arith, DvnError, dvn,
}
use lz_v2_audit.Dvn.Committee.{
  Multisig, Signature, signers_max_len, assert_unique, sanity_check, verify_loop, verify_signatures,
}

-- No key stands twice in a list.
abbrev pub IsDistinct : List ℕ → Type 0
IsDistinct [] = Unit
IsDistinct (k ∷ ks) = (contains k ks ≡ false) × IsDistinct ks

-- A committee that can reach its quorum.
pub record IsMultisig (m : Multisig) : Type 0 where
  pub some_signers : 0 < length m.signers
  pub few_signers : length m.signers ≤ signers_max_len
  pub positive : 0 < m.quorum
  pub reached : m.quorum ≤ length m.signers
  pub distinct : IsDistinct m.signers

abbrev IsFresh : List ℕ → List ℕ → Type 0
IsFresh unique = All (λ k. contains k unique ≡ false)

IsFresh-cons :
    (k : ℕ) (unique ks : List ℕ)
    → IsFresh (k ∷ unique) ks
    → IsFresh unique ks × (contains k ks ≡ false)
IsFresh-cons k unique [] h = (tt, refl)
IsFresh-cons k unique (x ∷ xs) h = ground (arith, IsFresh-cons k unique xs h.1)

unique-IsDistinct :
    (signers unique : List ℕ) {u : Unit {0}}
    → assert_unique signers unique ≡ ok u
    → IsDistinct signers × IsFresh unique signers
unfolding assert_unique
unique-IsDistinct [] unique h = (tt, tt)
unique-IsDistinct (s ∷ ss) unique h =
    let (u1, e1, h1) =
      >>=-eq-ok (require (not (contains s unique)) (dvn DvnError.unique_owners)) _ h in
    let (d, f) = unique-IsDistinct ss (s ∷ unique) h1 in
    let (g, n) = IsFresh-cons s unique ss f in
    let new = require-eq-ok (not (contains s unique)) (dvn DvnError.unique_owners) e1 in
    ((n, d), (ground arith, g))

-- A committee that passes the check has 1 to 7 different signers, and a quorum of at least one of
-- them and of no more than there are.
pub sanity_check_lem : (m : Multisig) {u : Unit {0}} → sanity_check m ≡ ok u → IsMultisig m
unfolding sanity_check
sanity_check_lem m h =
    let (u1, e1, h1) =
      >>=-eq-ok
        (require (ltb 0 (length m.signers) && leb (length m.signers) signers_max_len)
          (dvn DvnError.invalid_signers_len))
        _ h in
    let (u2, e2, h2) =
      >>=-eq-ok
        (require (ltb 0 m.quorum && leb m.quorum (length m.signers)) (dvn DvnError.invalid_quorum))
        _ h1 in
    let counts =
      require-eq-ok (ltb 0 (length m.signers) && leb (length m.signers) signers_max_len) _ e1 in
    let bounds = require-eq-ok (ltb 0 m.quorum && leb m.quorum (length m.signers)) _ e2 in
    record {
      some_signers = ground arith;
      few_signers = ground arith;
      positive = ground arith;
      reached = ground arith;
      distinct = (unique-IsDistinct m.signers [] h2).0;
    }

IsFresh-behind :
    (k : ℕ) (signed ks : List ℕ)
    → contains k ks ≡ false
    → IsFresh signed ks
    → IsFresh (k ∷ signed) ks
IsFresh-behind k signed [] n f = tt
IsFresh-behind k signed (x ∷ xs) n f = (ground arith, IsFresh-behind k signed xs (ground arith) f.1)

nothing_signed : (ks : List ℕ) → IsFresh [] ks
nothing_signed [] = tt
nothing_signed (k ∷ ks) = (refl, nothing_signed ks)

module _ (secp256k1_recover : (hash recovery_id sig : ℕ) → Option ℕ) where
  -- One of the signatures is by the key.
  abbrev pub SignedBy : (hash : ℕ) → List Signature → ℕ → Type 0
  SignedBy hash [] k = ⊥
  SignedBy hash (s ∷ ss) k =
      (secp256k1_recover hash s.recovery_id s.bytes ≡ some k) ⊎ SignedBy hash ss k

  later :
      (hash : ℕ) (s : Signature) (ss : List Signature) (ks : List ℕ)
      → All (SignedBy hash ss) ks
      → All (SignedBy hash (s ∷ ss)) ks
  later hash s ss [] h = tt
  later hash s ss (k ∷ ks) h = (inr h.0, later hash s ss ks h.1)

  -- Different members of a committee, so many of them, each of which has signed.
  pub record IsQuorum (signers : List ℕ) (hash count : ℕ) (sigs : List Signature) (keys : List ℕ)
      : Type 0 where
    pub counted : length keys ≡ count
    pub distinct : IsDistinct keys
    pub members : All (λ k. contains k signers ≡ true) keys
    pub signed : All (SignedBy hash sigs) keys

  loop-IsQuorum :
      (signers : List ℕ) (hash remaining : ℕ) (sigs : List Signature) (signed : List ℕ)
      {u : Unit {0}}
      → verify_loop secp256k1_recover signers hash remaining sigs signed ≡ ok u
      → (keys : List ℕ) × IsQuorum signers hash remaining sigs keys × IsFresh signed keys
  unfolding verify_loop
  loop-IsQuorum signers hash zero sigs signed h =
      ([], record { counted = refl; distinct = tt; members = tt; signed = tt }, tt)
  loop-IsQuorum signers hash (suc remaining) [] signed h = cc
  loop-IsQuorum signers hash (suc remaining) (s ∷ ss) signed h =
      let (k, e1, h1) =
        >>=-eq-ok
          (ok_or (secp256k1_recover hash s.recovery_id s.bytes) (dvn DvnError.signature_error)) _
          h in
      let (u2, e2, h2) =
        >>=-eq-ok (require (contains k signers) (dvn DvnError.signer_not_in_committee)) _ h1 in
      let (u3, e3, h3) =
        >>=-eq-ok (require (not (contains k signed)) (dvn DvnError.duplicate_signature)) _ h2 in
      let (keys, q, f) = loop-IsQuorum signers hash remaining ss (k ∷ signed) h3 in
      let (g, n) = IsFresh-cons k signed keys f in
      let new = require-eq-ok (not (contains k signed)) (dvn DvnError.duplicate_signature) e3 in
      (
        k ∷ keys,
        record {
          counted = omega (arith, q.counted);
          distinct = (n, q.distinct);
          members = (require-eq-ok (contains k signers) _ e2, q.members);
          signed = (inl (ok_or-eq-ok _ _ e1), later hash s ss keys q.signed);
        },
        (ground arith, g),
      )

  -- Accepted signatures are by as many different members of the committee as its quorum asks for.
  pub verify_signatures_quorum :
      (m : Multisig) (sigs : List Signature) (hash : ℕ) {u : Unit {0}}
      → verify_signatures secp256k1_recover m sigs hash ≡ ok u
      → (keys : List ℕ) × IsQuorum m.signers hash m.quorum sigs keys
  unfolding verify_signatures
  verify_signatures_quorum m sigs hash h =
      let (u1, e1, h1) =
        >>=-eq-ok (require (leb m.quorum (length sigs)) (dvn DvnError.invalid_signature_len)) _ h in
      let (keys, q, f) = loop-IsQuorum m.signers hash m.quorum sigs [] h1 in (keys, q)

  -- The keys that the first signatures recover to, in order.
  abbrev pub Recover : (hash : ℕ) → List Signature → List ℕ → Type 0
  Recover hash sigs [] = Unit
  Recover hash [] (k ∷ ks) = ⊥
  Recover hash (s ∷ ss) (k ∷ ks) =
      (secp256k1_recover hash s.recovery_id s.bytes ≡ some k) × Recover hash ss ks

  loop_accepts :
      (signers : List ℕ) (hash : ℕ) (sigs : List Signature) (keys signed : List ℕ)
      → Recover hash sigs keys
      → IsDistinct keys
      → All (λ k. contains k signers ≡ true) keys
      → IsFresh signed keys
      → verify_loop secp256k1_recover signers hash (length keys) sigs signed ≡ ok tt
  unfolding verify_loop
  loop_accepts signers hash sigs [] signed r d m f = refl
  loop_accepts signers hash [] (k ∷ ks) signed r d m f = absurd r
  loop_accepts signers hash (s ∷ ss) (k ∷ ks) signed r d m f =
      rw (r.0, m.0, f.0)
        (loop_accepts signers hash ss ks (k ∷ signed) r.1 d.1 m.1
          (IsFresh-behind k signed ks d.0 f.1))

  longer :
      (hash : ℕ) (sigs : List Signature) (keys : List ℕ)
      → Recover hash sigs keys
      → length keys ≤ length sigs
  longer hash sigs [] r = omega arith
  longer hash [] (k ∷ ks) r = absurd r
  longer hash (s ∷ ss) (k ∷ ks) r = omega (arith, longer hash ss ks r.1)

  -- If the first signatures, as many as the quorum, recover to different members of the committee,
  -- the signatures are accepted.
  pub quorum_accepted :
      (m : Multisig) (sigs : List Signature) (hash : ℕ) (keys : List ℕ)
      → length keys ≡ m.quorum
      → Recover hash sigs keys
      → IsDistinct keys
      → All (λ k. contains k m.signers ≡ true) keys
      → verify_signatures secp256k1_recover m sigs hash ≡ ok tt
  unfolding verify_signatures
  quorum_accepted m sigs hash keys c r d members =
      rw (← c, le→leb _ _ (longer hash sigs keys r))
        (loop_accepts m.signers hash sigs keys [] r d members (nothing_signed keys))
