-- ===== src/Core/ConnectorProtocol/Accepted.antt =====
-- Which messages `assertLoginRequest` lets through.
use Prim.Native.String.{String}
use magna_monorepo.Base.{
  ℕ, ◌≤◌, ◌≡◌, ◌≢◌, ◌⊎◌, refl, ap, Bool, true, false, List, [], ◌∷◌, length, All, all_iff, arith,
  ◌↔◌, inl, inr, Bool-cases, ok, >>=-eq-ok, le→ltb, subst,
}
use magna_monorepo.Base.Texts.{codes, text_eq, text_eq_iff, text_eq_refl, eq_of_text_eq}
use magna_monorepo.Core.Values.{
  Value, undefined, string, array, object, Elements, Properties, get, elements,
}
use magna_monorepo.Core.ConnectorProtocol.{
  is_id_char, is_handle_char, matches_run, assert_requirement_id, assert_instagram_handle, is_text,
  has, assert_requirement_body, assert_requirement, assert_requirements_from,
  assert_wire_login_requirements,
}
use magna_monorepo.Core.ConnectorProtocol.Policies.{IsWirePolicy, assert_wire_policy_iff}

abbrev pub IsBetween : ℕ → ℕ → ℕ → Type 0
IsBetween lo hi c = (lo ≤ c) × (c ≤ hi)

-- a to z, 0 to 9, "_" and "-".
abbrev pub IsIdChar : ℕ → Type 0
IsIdChar c = IsBetween b'a' b'z' c ⊎ (IsBetween b'0' b'9' c ⊎ ((c ≡ b'_') ⊎ (c ≡ b'-')))

-- a to z, 0 to 9, "." and "_".
abbrev pub IsHandleChar : ℕ → Type 0
IsHandleChar c = IsBetween b'a' b'z' c ⊎ (IsBetween b'0' b'9' c ⊎ ((c ≡ b'.') ⊎ (c ≡ b'_')))

-- A text of 1 to `most` characters, each of a class.
abbrev pub IsRun : (ℕ → Type 0) → ℕ → List ℕ → Type 0
IsRun P most s = All P s × (1 ≤ length s) × (length s ≤ most)

is_id_char_iff : (c : ℕ) → (is_id_char c ≡ true) ↔ IsIdChar c
unfolding is_id_char
is_id_char_iff c = (λ h. ground arith, λ h. ground arith)

is_handle_char_iff : (c : ℕ) → (is_handle_char c ≡ true) ↔ IsHandleChar c
unfolding is_handle_char
is_handle_char_iff c = (λ h. ground arith, λ h. ground arith)

matches_run_iff :
    (p : ℕ → Bool) (P : ℕ → Type 0) (each : (c : ℕ) → (p c ≡ true) ↔ P c) (most : ℕ) (s : List ℕ)
    → (matches_run p most s ≡ true) ↔ IsRun P most s
matches_run_iff p P each most s = (
  λ h. ((all_iff p P each s).0 (ground arith), ground arith, ground arith),
  λ (h, lo, hi). ground (arith, (all_iff p P each s).1 h),
)

pub is_text_iff : (l : String) (v : Value) → (is_text l v ≡ true) ↔ (v ≡ string (codes l))
is_text_iff l v = (to v, λ e. rw e (text_eq_refl (codes l)))
  where
    to : (v : Value) → is_text l v ≡ true → v ≡ string (codes l)
    to (string s) h = ap string (eq_of_text_eq s (codes l) h)
    to _ h = cc

has_iff : (ids : List (List ℕ)) (id : List ℕ) → (has ids id ≡ false) ↔ All (λ i. i ≢ id) ids
has_iff [] id = (λ _. tt, λ _. refl)
has_iff (i ∷ ids) id = (
  λ h. (
    λ e.
        cc ((text_eq_iff i id).1 e, let no_match : text_eq i id ≡ false = ground arith in no_match),
    (has_iff ids id).0 (ground arith),
  ),
  λ h. elim (Bool-cases (text_eq i id)) [
    | inl same ↦ absurd (h.0 (eq_of_text_eq i id same))
    | inr other ↦ rw other ((has_iff ids id).1 h.1)
  ],
)

-- A requirement is a policy, or an Instagram handle.
abbrev pub IsRequirementBody : Properties → Type 0
IsRequirementBody r =
    ((get (codes "kind") r ≡ string (codes "policy")) × IsWirePolicy (get (codes "policy") r))
    ⊎ ((get (codes "kind") r ≡ string (codes "instagram-handle"))
        × ((h : List ℕ) × (get (codes "handle") r ≡ string h) × IsRun IsHandleChar 30 h))

pub record IsRequirement (v : Value) : Type 0 where
  pub fields : Properties
  pub is_object : v ≡ object fields
  pub id : List ℕ
  pub id_is : get (codes "id") fields ≡ string id
  pub id_shape : IsRun IsIdChar 40 id
  pub body : IsRequirementBody fields

-- Requirements whose ids differ from each other and from those seen before.
abbrev pub AreDistinct : List (List ℕ) → List Value → Type 0
AreDistinct ids [] = Unit
AreDistinct ids (v ∷ vs) =
    (r : IsRequirement v) × All (λ i. i ≢ r.id) ids × AreDistinct (r.id ∷ ids) vs

handle_sound :
    (v : Value)
    → assert_instagram_handle v ≡ ok tt
    → (h : List ℕ) × (v ≡ string h) × IsRun IsHandleChar 30 h
unfolding assert_instagram_handle
handle_sound (string s) h = (
  s,
  refl,
  (matches_run_iff is_handle_char IsHandleChar is_handle_char_iff 30 s).0 (ground arith),
)
handle_sound _ h = cc

handle_complete :
    (h : List ℕ) → IsRun IsHandleChar 30 h → assert_instagram_handle (string h) ≡ ok tt
unfolding assert_instagram_handle
handle_complete h run =
    rw ((matches_run_iff is_handle_char IsHandleChar is_handle_char_iff 30 h).1 run)

body_sound : (r : Properties) → assert_requirement_body r ≡ ok tt → IsRequirementBody r
unfolding assert_requirement_body
body_sound r h = elim (Bool-cases (is_text "policy" (get (codes "kind") r))) [
  | inl policy ↦
      inl ((is_text_iff "policy" _).0 policy, (assert_wire_policy_iff _).0 (rw policy at h))
  | inr other ↦ elim (Bool-cases (is_text "instagram-handle" (get (codes "kind") r))) [
    | inl handle ↦
        inr ((is_text_iff "instagram-handle" _).0 handle, handle_sound _ (rw (other, handle) at h))
    | inr neither ↦ absurd (ground arith)
  ]
]

body_complete : (r : Properties) → IsRequirementBody r → assert_requirement_body r ≡ ok tt
unfolding assert_requirement_body
body_complete r (inl (kind, p)) =
    rw ((is_text_iff "policy" _).1 kind) ((assert_wire_policy_iff _).1 p)
body_complete r (inr (kind, (h, e, run))) = rw kind (rw e (handle_complete h run))

requirement_id_sound :
    (v : Value) (id : List ℕ)
    → assert_requirement_id v ≡ ok id
    → (v ≡ string id) × IsRun IsIdChar 40 id
unfolding assert_requirement_id
requirement_id_sound (string s) id h =
    let same : s ≡ id = ground arith in
    (
      ap string same,
      subst (IsRun IsIdChar 40) same
          ((matches_run_iff is_id_char IsIdChar is_id_char_iff 40 s).0 (ground arith)),
    )
requirement_id_sound _ id h = cc

requirement_id_complete :
    (id : List ℕ) → IsRun IsIdChar 40 id → assert_requirement_id (string id) ≡ ok id
unfolding assert_requirement_id
requirement_id_complete id run =
    rw ((matches_run_iff is_id_char IsIdChar is_id_char_iff 40 id).1 run)

IsRequirement-sound :
    (ids : List (List ℕ)) (v : Value) (ids' : List (List ℕ))
    → assert_requirement ids v ≡ ok ids'
    → (r : IsRequirement v) × All (λ i. i ≢ r.id) ids × (ids' ≡ r.id ∷ ids)
unfolding assert_requirement
IsRequirement-sound ids (object r) ids' h =
    let (id, id_ok, h₁) = >>=-eq-ok (assert_requirement_id (get (codes "id") r)) _ h in
    let (id_is, run) = requirement_id_sound (get (codes "id") r) id id_ok in
    let fresh : has ids id ≡ false = ground arith in
    let body : assert_requirement_body r ≡ ok tt = ground arith in
    (
      record {
        fields = r;
        is_object = refl;
        id = id;
        id_is = id_is;
        id_shape = run;
        body = body_sound r body;
      },
      (has_iff ids id).0 fresh,
      ground arith,
    )
IsRequirement-sound ids _ ids' h = cc

requirement_complete :
    (ids : List (List ℕ)) (v : Value) (r : IsRequirement v)
    → All (λ i. i ≢ r.id) ids
    → assert_requirement ids v ≡ ok (r.id ∷ ids)
unfolding assert_requirement
requirement_complete ids v r fresh = rw r.is_object (
    rw r.id_is (
      rw (requirement_id_complete r.id r.id_shape, (has_iff ids r.id).1 fresh)
        (rw (body_complete r.fields r.body))))

requirements_sound :
    (ids : List (List ℕ)) (vs : List Value)
    → assert_requirements_from ids vs ≡ ok tt
    → AreDistinct ids vs
unfolding assert_requirements_from
requirements_sound ids [] h = tt
requirements_sound ids (v ∷ vs) h =
    let (ids', first, rest) = >>=-eq-ok (assert_requirement ids v) _ h in
    let (r, fresh, same) = IsRequirement-sound ids v ids' first in
    (r, fresh, requirements_sound (r.id ∷ ids) vs (rw same at rest))

requirements_complete :
    (ids : List (List ℕ)) (vs : List Value)
    → AreDistinct ids vs
    → assert_requirements_from ids vs ≡ ok tt
unfolding assert_requirements_from
requirements_complete ids [] h = refl
requirements_complete ids (v ∷ vs) (r, fresh, h) =
    rw (requirement_complete ids v r fresh) (requirements_complete (r.id ∷ ids) vs h)

-- No requirements, or an array of 1 to 4 of them with distinct ids.
abbrev pub AreRequirements : Value → Type 0
AreRequirements v =
    (v ≡ undefined)
    ⊎ ((es : Elements) × (v ≡ array es)
        × (1 ≤ length (elements es))
        × (length (elements es) ≤ 4)
        × AreDistinct [] (elements es))

login_requirements_sound :
    (v : Value) → assert_wire_login_requirements v ≡ ok tt → AreRequirements v
unfolding assert_wire_login_requirements
login_requirements_sound undefined h = inl refl
login_requirements_sound (array es) h =
    inr (es, refl, ground arith, ground arith, requirements_sound [] (elements es) (ground arith))
login_requirements_sound _ h = cc

login_requirements_complete :
    (v : Value) → AreRequirements v → assert_wire_login_requirements v ≡ ok tt
unfolding assert_wire_login_requirements
login_requirements_complete v (inl e) = rw e
login_requirements_complete v (inr (es, e, lo, hi, distinct)) = rw e (
    rw (le→ltb (length (elements es)) 1 lo, le→ltb 4 (length (elements es)) hi)
      (requirements_complete [] (elements es) distinct))

-- `assertWireLoginRequirements` returns exactly on such values.
pub assert_wire_login_requirements_iff :
    (v : Value) → (assert_wire_login_requirements v ≡ ok tt) ↔ AreRequirements v
assert_wire_login_requirements_iff v = (login_requirements_sound v, login_requirements_complete v)
