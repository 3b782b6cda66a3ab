-- ===== src/Promotion/Policy/Admissible.antt =====
-- src/policy/promotion.rs: about the manifests that admit takes.
use ai_sre.Prelude.{
  ℕ, ◌≡◌, ◌≢◌, ◌↔◌, refl, sym, ap, ◌∙◌, true, false, ◌&&◌, Option, none, some, List, [], ◌∷◌,
  Result, ok, any, Text, same_text, same_text_iff, All, arith, inl, inr, Bool-cases, Result-cases,
  ==_iff,
}
use ai_sre.Prelude.Int.{ℤ, ◌≤ℤ◌, ◌<ℤ◌, ltb_ℤ, leb_ℤ}
use ai_sre.Promotion.{Gate, a, b, c, Payload, PromotionManifest, PromotionError, validate_shape}
use ai_sre.Promotion.Policy.{
  RuntimeBinding, AdmittedGate, is_unbound, is_gate_a, names, follows, admit,
}

-- the values that the running deployment pins
pub record IsBound (m : PromotionManifest) (bind : RuntimeBinding) : Type 0 where
  pub binary_digest : m.payload.binary_digest ≡ bind.binary_digest
  pub policy_version : m.payload.policy_version ≡ bind.policy_version
  pub config_version : m.payload.config_version ≡ bind.config_version
  pub corpus_digest : m.payload.corpus_digest ≡ bind.corpus_digest
  pub generation : m.payload.generation ≡ bind.generation

-- Gate A stands first; each other gate stands directly on an admitted gate A that it names.
abbrev pub Follows : PromotionManifest → Option AdmittedGate → Type 0
Follows m none = m.payload.gate ≡ a
Follows m (some previous) =
    (m.payload.gate ≢ a)
    × (previous.gate ≡ a)
    × (m.payload.predecessor_digest ≡ some previous.digest)

module _ (sha256 : List ℕ → List ℕ) (to_vec : Payload → List ℕ) where
  pub record IsAdmissible (m : PromotionManifest) (bind : RuntimeBinding) (now : ℤ)
      (predecessor : Option AdmittedGate) : Type 0 where
    pub shape : validate_shape sha256 to_vec m ≡ ok tt
    pub not_revoked : m.payload.revoked ≡ false
    pub trusted_key : All (λ key. key ≢ m.payload.key_id) bind.revoked_key_ids
    pub issued : m.payload.issued_at ≤ℤ now
    pub unexpired : now <ℤ m.payload.expires_at
    pub bound : IsBound m bind
    pub chain : Follows m predecessor

trusted :
    (key : Text) (revoked : List Text)
    → any (λ k. same_text k key) revoked ≡ false
    → All (λ k. k ≢ key) revoked
trusted key [] h = tt
trusted key (k ∷ ks) h =
    (λ e. ground (arith, (same_text_iff k key).1 e), trusted key ks (ground arith))

untrusted :
    (key : Text) (revoked : List Text)
    → All (λ k. k ≢ key) revoked
    → any (λ k. same_text k key) revoked ≡ false
untrusted key [] h = refl
untrusted key (k ∷ ks) h = elim (Bool-cases (same_text k key)) [
  | inl e ↦ absurd (h.0 ((same_text_iff k key).0 e))
  | inr e ↦ rw e (untrusted key ks h.1)
]

IsBound-of :
    (m : PromotionManifest) (bind : RuntimeBinding) → is_unbound m bind ≡ false → IsBound m bind
IsBound-of m bind h = record {
  binary_digest = (same_text_iff _ _).0 (ground arith);
  policy_version = (same_text_iff _ _).0 (ground arith);
  config_version = (same_text_iff _ _).0 (ground arith);
  corpus_digest = (same_text_iff _ _).0 (ground arith);
  generation = (==_iff _ _).0 (ground arith);
}

unbound_of :
    (m : PromotionManifest) (bind : RuntimeBinding) → IsBound m bind → is_unbound m bind ≡ false
unbound_of m bind h =
    rw
      (
        (same_text_iff _ _).1 h.binary_digest,
        (same_text_iff _ _).1 h.policy_version,
        (same_text_iff _ _).1 h.config_version,
        (same_text_iff _ _).1 h.corpus_digest,
        (==_iff _ _).1 h.generation,
      )
      refl

named : (o : Option Text) (digest : Text) → (names o digest ≡ true) ↔ (o ≡ some digest)
named none digest = (λ h. absurd (cc), λ h. absurd (cc))
named (some value) digest = (
  λ h. ground (arith, (same_text_iff value digest).0 h),
  λ h. (same_text_iff value digest).1 (ground arith),
)

is_gate_a_iff : (g : Gate) → (is_gate_a g ≡ true) ↔ (g ≡ a)
is_gate_a_iff a = (λ _. refl, λ _. refl)
is_gate_a_iff b = (λ h. absurd (cc), λ h. absurd (cc))
is_gate_a_iff c = (λ h. absurd (cc), λ h. absurd (cc))

ltb_ℤ-false : (x y : ℤ) → y ≤ℤ x → ltb_ℤ x y ≡ false
ltb_ℤ-false x y h = ground arith

leb_ℤ-false : (x y : ℤ) → y <ℤ x → leb_ℤ x y ≡ false
leb_ℤ-false x y h = ground arith

abbrev as_result : AdmittedGate → Result PromotionError AdmittedGate
as_result g = ok g

ok_inj : (g h : AdmittedGate) → as_result g ≡ as_result h → g ≡ h
ok_inj g h e = cc

module _ (m : PromotionManifest) where
  -- a gate behind the first
  on_gate_a :
      (previous : AdmittedGate)
      → m.payload.gate ≢ a
      → ((is_gate_a previous.gate && names m.payload.predecessor_digest previous.digest) ≡ true)
        ↔ Follows m (some previous)
  on_gate_a previous later = (
    λ h. (
      later,
      (is_gate_a_iff previous.gate).0 (ground arith),
      (named m.payload.predecessor_digest previous.digest).0 (ground arith),
    ),
    λ h.
        rw
          (
            (is_gate_a_iff previous.gate).1 h.1,
            (named m.payload.predecessor_digest previous.digest).1 h.2,
          )
          refl,
  )

  follows-Follows :
      (gate : Gate) (p : Option AdmittedGate)
      → m.payload.gate ≡ gate
      → (follows gate m.payload.predecessor_digest p ≡ true) ↔ Follows m p
  unfolding follows
  follows-Follows a none e = (λ _. e, λ _. refl)
  follows-Follows a (some p) e = (λ h. absurd (cc), λ h. absurd (h.0 e))
  follows-Follows b none e = (λ h. absurd (cc), λ h. absurd (cc))
  follows-Follows b (some p) e = on_gate_a p (λ h. cc)
  follows-Follows c none e = (λ h. absurd (cc), λ h. absurd (cc))
  follows-Follows c (some p) e = on_gate_a p (λ h. cc)

module _ (sha256 : List ℕ → List ℕ) (to_vec : Payload → List ℕ) (m : PromotionManifest)
    (bind : RuntimeBinding) (now : ℤ) (predecessor : Option AdmittedGate) where
  admissible :
      (g : AdmittedGate)
      → admit sha256 to_vec m bind now predecessor ≡ ok g
      → IsAdmissible sha256 to_vec m bind now predecessor
  unfolding admit
  admissible g h = elim (Result-cases (validate_shape sha256 to_vec m)) [
    | inr (x, e) ↦ absurd (ground arith)
    | inl (u, e) ↦ record {
      shape = e;
      not_revoked = ground arith;
      trusted_key = trusted m.payload.key_id bind.revoked_key_ids (ground arith);
      issued = ground arith;
      unexpired = ground arith;
      bound = IsBound-of m bind (ground arith);
      chain = (follows-Follows m m.payload.gate predecessor refl).0 (ground arith);
    }
  ]

  admitted :
      IsAdmissible sha256 to_vec m bind now predecessor
      → admit sha256 to_vec m bind now predecessor
        ≡ ok (record { gate = m.payload.gate; digest = m.manifest_digest })
  unfolding admit
  admitted h =
      let key = untrusted m.payload.key_id bind.revoked_key_ids h.trusted_key in
      let pinned = unbound_of m bind h.bound in
      let chained = (follows-Follows m m.payload.gate predecessor refl).1 h.chain in
      let shape = h.shape in
      let kept = h.not_revoked in
      let early : ltb_ℤ now m.payload.issued_at ≡ false =
        ltb_ℤ-false now m.payload.issued_at h.issued in
      let late : leb_ℤ m.payload.expires_at now ≡ false =
        leb_ℤ-false m.payload.expires_at now h.unexpired in
      rw (shape, kept, key, early, late, pinned, chained, admit) refl

  -- A manifest is admitted exactly if its shape is valid, neither it nor its key is revoked, the time
  -- is within its interval, it is bound to what the deployment runs, and it stands first as gate A or
  -- as another gate directly on the admitted gate A that it names; what is admitted is its own gate
  -- under its digest.
  pub admit_iff :
      (g : AdmittedGate)
      → (admit sha256 to_vec m bind now predecessor ≡ ok g) ↔ (
          IsAdmissible sha256 to_vec m bind now predecessor
          × (g ≡ record { gate = m.payload.gate; digest = m.manifest_digest }))
  admit_iff g = (
    λ h. (admissible g h, ok_inj _ _ (sym h ∙ admitted (admissible g h))),
    λ h. admitted h.0 ∙ ap ok (sym h.1),
  )
