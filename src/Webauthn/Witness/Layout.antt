-- ===== src/Webauthn/Witness/Layout.antt =====
-- The layout of the auth witness that the account contract decodes.
use magna_monorepo.Base.{
  ℕ, zero, suc, ◌+◌, ◌-◌, ◌≤◌, ◌≡◌, refl, sym, ap, ◌∙◌, List, [], ◌∷◌, ◌++◌, ok, length, replicate,
  arith, length-append, length-replicate, ltb, le→ltb, false,
}
use mathlib.Core.List.{append_assoc}
use magna_monorepo.Base.Numbers.{pos}
use magna_monorepo.Core.Values.{integer}
use magna_monorepo.Webauthn.Witness.{
  WitnessInput, webauthn_witness_len, set, write_bytes, natural_index, fill_fields,
  build_webauthn_witness_fields,
}

-- `[0..63]` signature, `[64]` length and `[65..128]` the padded authenticator data, `[129]` length
-- and `[130..385]` the padded client data, `[386]` the index of the origin.
abbrev pub layout : List ℕ → List ℕ → List ℕ → ℕ → List ℕ
layout signature ad cdj origin =
    signature
    ++ (length ad
        ∷ (ad
            ++ (replicate (64 - length ad) 0
                ++ (length cdj ∷ (cdj ++ (replicate (256 - length cdj) 0 ++ (origin ∷ [])))))))

set-append :
    (pre : List ℕ) (i x v : ℕ) (post : List ℕ)
    → length pre ≡ i
    → set (pre ++ (x ∷ post)) i v ≡ pre ++ (v ∷ post)
unfolding set
set-append [] zero x v post h = refl
set-append [] (suc i) x v post h = absurd (omega arith)
set-append (p ∷ pre) zero x v post h = absurd (omega arith)
set-append (p ∷ pre) (suc i) x v post h = ap (λ t. p ∷ t) (set-append pre i x v post (omega arith))

-- Writing over a row of zeros.
write_bytes-append :
    (bytes pre post : List ℕ) (base room : ℕ)
    → length pre ≡ base
    → length bytes ≤ room
    → write_bytes (pre ++ (replicate room 0 ++ post)) base bytes
      ≡ pre ++ (bytes ++ (replicate (room - length bytes) 0 ++ post))
unfolding write_bytes
write_bytes-append [] pre post base room h k =
    ap (λ (n : ℕ). pre ++ (replicate n 0 ++ post)) (let e : room ≡ room - 0 = omega arith in e)
write_bytes-append (b ∷ bytes) pre post base zero h k = absurd (omega arith)
write_bytes-append (b ∷ bytes) pre post base (suc room) h k =
    let row : List ℕ = replicate room 0 ++ post in
    let same : suc room - suc (length bytes) ≡ room - length bytes = omega arith in
    rw (set-append pre base 0 b row h, same)
      (ap (λ t. write_bytes t (base + 1) bytes) (sym (append_assoc pre (b ∷ []) row))
        ∙ write_bytes-append bytes (pre ++ (b ∷ [])) post (base + 1) room
            (omega (arith, length-append pre (b ∷ []))) (omega arith)
        ∙ append_assoc pre (b ∷ []) (bytes ++ (replicate (room - length bytes) 0 ++ post)))

-- A length and the bytes after it, in a row of zeros.
write_block :
    (pre bytes post : List ℕ) (i room : ℕ)
    → length pre ≡ i
    → length bytes ≤ room
    → write_bytes (set (pre ++ (0 ∷ (replicate room 0 ++ post))) i (length bytes)) (i + 1) bytes
      ≡ pre ++ (length bytes ∷ (bytes ++ (replicate (room - length bytes) 0 ++ post)))
write_block pre bytes post i room h k =
    let one : List ℕ = length bytes ∷ [] in
    rw (set-append pre i 0 (length bytes) (replicate room 0 ++ post) h) (
      ap (λ t. write_bytes t (i + 1) bytes) (sym (append_assoc pre one (replicate room 0 ++ post)))
      ∙ write_bytes-append bytes (pre ++ one) post (i + 1) room
          (omega (arith, length-append pre one)) k
      ∙ append_assoc pre one (bytes ++ (replicate (room - length bytes) 0 ++ post)))

regroup :
    (pre : List ℕ) (x : ℕ) (bytes row post : List ℕ)
    → pre ++ (x ∷ (bytes ++ (row ++ post))) ≡ (pre ++ (x ∷ (bytes ++ row))) ++ post
regroup pre x bytes row post = sym (
    append_assoc pre (x ∷ (bytes ++ row)) post
    ∙ ap (λ t. pre ++ (x ∷ t)) (append_assoc bytes row post))

length-block :
    (pre : List ℕ) (x : ℕ) (bytes : List ℕ) (room : ℕ)
    → length bytes ≤ room
    → length (pre ++ (x ∷ (bytes ++ replicate (room - length bytes) 0))) ≡ length pre + 1 + room
length-block pre x bytes room h =
    let row : List ℕ = replicate (room - length bytes) 0 in
    omega (
      arith,
      length-append pre (x ∷ (bytes ++ row)),
      length-append bytes row,
      length-replicate {A = ℕ} (room - length bytes) 0,
      h,
    )

fill_rows :
    (signature ad cdj : List ℕ) (origin m k l : ℕ)
    → length signature ≡ m
    → length ad ≤ k
    → length cdj ≤ l
    → (row : List ℕ)
    → row ≡ replicate m 0 ++ (0 ∷ (replicate k 0 ++ (0 ∷ (replicate l 0 ++ (0 ∷ [])))))
    → set
        (write_bytes
          (set
            (write_bytes (set (write_bytes row 0 signature) m (length ad)) (m + 1) ad)
            (m + 1 + k)
            (length cdj))
          (m + 1 + k + 1)
          cdj)
        (m + 1 + k + 1 + l)
        origin
      ≡ signature
        ++ (length ad
            ∷ (ad
                ++ (replicate (k - length ad) 0
                    ++ (length cdj ∷ (cdj ++ (replicate (l - length cdj) 0 ++ (origin ∷ [])))))))
fill_rows signature ad cdj origin m k l h hk hl row e =
    let last : List ℕ = replicate l 0 ++ (0 ∷ []) in
    let ad_row : List ℕ = replicate (k - length ad) 0 in
    let cdj_row : List ℕ = replicate (l - length cdj) 0 in
    let p : List ℕ = signature ++ (length ad ∷ (ad ++ ad_row)) in
    let q : List ℕ = p ++ (length cdj ∷ (cdj ++ cdj_row)) in
    let lp : length p ≡ m + 1 + k = omega (arith, length-block signature (length ad) ad k hk, h) in
    let lq : length q ≡ m + 1 + k + 1 + l =
      omega (arith, length-block p (length cdj) cdj l hl, lp) in
    let z : m - length signature ≡ 0 = omega arith in
    let e1 : write_bytes row 0 signature ≡ signature ++ (0 ∷ (replicate k 0 ++ (0 ∷ last))) =
      ap (λ t. write_bytes t 0 signature) e
      ∙ write_bytes-append signature [] (0 ∷ (replicate k 0 ++ (0 ∷ last))) 0 m refl (omega arith)
      ∙ ap (λ n. signature ++ (replicate n 0 ++ (0 ∷ (replicate k 0 ++ (0 ∷ last))))) z in
    let e2 =
      write_block signature ad (0 ∷ last) m k h hk
      ∙ regroup signature (length ad) ad ad_row (0 ∷ last) in
    let e3 =
      write_block p cdj (0 ∷ []) (m + 1 + k) l lp hl
      ∙ regroup p (length cdj) cdj cdj_row (0 ∷ []) in
    let e4 =
      set-append q (m + 1 + k + 1 + l) 0 origin [] lq
      ∙ sym (regroup p (length cdj) cdj cdj_row (origin ∷ []))
      ∙ sym (
          regroup signature (length ad) ad ad_row
            (length cdj ∷ (cdj ++ (cdj_row ++ (origin ∷ []))))) in
    rw (e1, e2, e3) e4

fill_fields-layout :
    (signature ad cdj : List ℕ) (origin : ℕ)
    → length signature ≡ 64
    → length ad ≤ 64
    → length cdj ≤ 256
    → fill_fields signature ad cdj origin ≡ layout signature ad cdj origin
unfolding fill_fields
fill_fields-layout signature ad cdj origin h k l =
    fill_rows signature ad cdj origin 64 64 256 h k l (replicate webauthn_witness_len 0) refl

length-layout :
    (signature ad cdj : List ℕ) (origin : ℕ)
    → length signature ≡ 64
    → length ad ≤ 64
    → length cdj ≤ 256
    → length (layout signature ad cdj origin) ≡ 387
length-layout signature ad cdj origin h k l =
    let ad_row : List ℕ = replicate (64 - length ad) 0 in
    let cdj_row : List ℕ = replicate (256 - length cdj) 0 in
    let tail : List ℕ = length cdj ∷ (cdj ++ (cdj_row ++ (origin ∷ []))) in
    let p : List ℕ = signature ++ (length ad ∷ (ad ++ ad_row)) in
    let q : List ℕ = p ++ (length cdj ∷ (cdj ++ cdj_row)) in
    rw
      (
        regroup signature (length ad) ad ad_row tail,
        regroup p (length cdj) cdj cdj_row (origin ∷ []),
      )
      (omega (
        arith,
        length-append q (origin ∷ []),
        length-block p (length cdj) cdj 256 l,
        length-block signature (length ad) ad 64 k,
        h,
      ))

-- For a signature of 64 bytes, authenticator data of at most 64 and client data of at most 256, and
-- an index that is a natural number, the fields are the layout of those four, and 387 in number.
pub build_webauthn_witness_fields-layout :
    (input : WitnessInput) (origin : ℕ)
    → length input.signature_rs ≡ 64
    → length input.authenticator_data ≤ 64
    → length input.client_data_json ≤ 256
    → input.origin_index ≡ integer (pos origin)
    → (build_webauthn_witness_fields input
        ≡ ok (layout input.signature_rs input.authenticator_data input.client_data_json origin))
      × (length (layout input.signature_rs input.authenticator_data input.client_data_json origin)
          ≡ 387)
unfolding build_webauthn_witness_fields natural_index
build_webauthn_witness_fields-layout input origin h k l e =
    let a : ltb 64 (length input.authenticator_data) ≡ false = le→ltb _ _ k in
    let b : ltb 256 (length input.client_data_json) ≡ false = le→ltb _ _ l in
    let built = ap ok (
      fill_fields-layout input.signature_rs input.authenticator_data input.client_data_json origin h
        k l) in
    (
      rw (h, a, b, e) built,
      length-layout input.signature_rs input.authenticator_data input.client_data_json origin h k l,
    )
