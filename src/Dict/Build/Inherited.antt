-- ===== src/Dict/Build/Inherited.antt =====
-- dict.c: the last loop of `dict_build`, over the codecs of the types.
use zdia.Prelude.{
  ℕ, zero, suc, ◌+◌, ◌<◌, ◌≡◌, ◌≢◌, ◌⊎◌, inl, inr, refl, ◌∙◌, sym, ap, subst, false, Bool-cases,
  ◌==◌, ==_iff, Option, none, some, List, arith, Run, ok, get_elem?, set, get_elem?-set,
  get_elem?-set_ne, length,
}
use zdia.Dict.Build.{is_unknown, find_codec, codec_found, set_codecs}
use zdia.Dict.Build.Codecs.{ChainEnds, no_parent, has_codec, to_parent, find_codec-ChainEnds}
use zdia.Dict.Types.{AvpType, Codec}

-- The type with the codec of its chain, if there is one.
abbrev pub inherited : AvpType → Option Codec → AvpType
inherited t none = t
inherited t (some c) = record t { codec = c }

ok_inj {ℓ} : {A : Type ℓ} {x y : A} → ◌≡◌ {A = Run A} (ok x) (ok y) → x ≡ y
ok_inj e = cc

some_inj {ℓ} : {A : Type ℓ} {x y : A} → some x ≡ some y → x ≡ y
some_inj e = cc

-- A chain has one end, and the codec there is known.
one_end :
    (types : List AvpType) (curr : Option ℕ) (n k : ℕ) (c d : Option Codec)
    → ChainEnds types curr n c
    → ChainEnds types curr k d
    → c ≡ d
one_end types curr n k c d p q = ok_inj (
    sym (find_codec-ChainEnds types curr n c (suc (n + k)) p (omega arith))
    ∙ find_codec-ChainEnds types curr k d (suc (n + k)) q (omega arith))

end_known :
    (types : List AvpType) (curr : Option ℕ) (n : ℕ) (o : Option Codec) (c : Codec)
    → ChainEnds types curr n o
    → o ≡ some c
    → is_unknown c ≡ false
end_known types _ _ _ c no_parent e = absurd (none_some e)
  where
    none_some : ◌≡◌ {A = Option Codec} none (some c) → ⊥
    none_some h = cc
end_known types _ _ _ c (has_codec slot t g k) e = subst (λ x. is_unknown x ≡ false) (some_inj e) k
end_known types _ _ o c (to_parent {n = n} slot t g k rest) e =
    end_known types t.parent n o c rest e

-- Some of the types have their codec set already.
Under : List AvpType → List AvpType → Type 0
Under types cur =
    (slot : ℕ) (t : AvpType)
    → get_elem? types slot ≡ some t
    → (get_elem? cur slot ≡ some t)
      ⊎ ((n : ℕ) × (c : Codec) × ChainEnds types (some slot) n (some c)
          × (get_elem? cur slot ≡ some (record t { codec = c })))

-- The loop over the parents does not notice.
find_codec-Under :
    (types cur : List AvpType) (curr : Option ℕ) (n : ℕ) (c : Option Codec) (fuel : ℕ)
    → Under types cur
    → ChainEnds types curr n c
    → n < fuel
    → find_codec fuel cur curr ≡ ok c
unfolding find_codec Under
find_codec-Under types cur curr n c zero u p h = absurd (omega arith)
find_codec-Under types cur _ _ _ (suc fuel) u no_parent h = refl
find_codec-Under types cur _ _ _ (suc fuel) u (has_codec slot t g k) h = elim (u slot t g) [
  | inl same ↦ rw (same, k) refl
  | inr (n, c, ends, coded) ↦
      rw (coded, end_known types (some slot) n (some c) c ends refl)
        (ap ok (one_end types (some slot) n 0 (some c) (some t.codec) ends (has_codec slot t g k)))
]
find_codec-Under types cur _ _ c (suc fuel) u (to_parent {n = m} slot t g k rest) h =
    elim (u slot t g) [
      | inl same ↦ rw (same, k) (find_codec-Under types cur t.parent m c fuel u rest (omega arith))
      | inr (n, d, ends, coded) ↦
          rw (coded, end_known types (some slot) n (some d) d ends refl)
            (ap ok
              (one_end types (some slot) n (suc m) (some d) c ends (to_parent slot t g k rest)))
    ]

-- The type at a slot has its codec.
Set : List AvpType → List AvpType → ℕ → Type 0
Set types cur slot =
    (t : AvpType) (n : ℕ) (c : Option Codec)
    → get_elem? types slot ≡ some t
    → ChainEnds types (some slot) n c
    → get_elem? cur slot ≡ some (inherited t c)

set_one :
    (types cur : List AvpType) (i : ℕ) (t : AvpType) (n : ℕ) (c : Option Codec)
    → get_elem? types i ≡ some t
    → ChainEnds types (some i) n c
    → get_elem? cur i ≡ some (inherited t c)
    → Set types cur i
unfolding Set
set_one types cur i t n c g p e t' n' c' g' p' =
    e
    ∙ ap some (
        ap (λ x. inherited x c) (some_inj (sym g ∙ g'))
        ∙ ap (inherited t') (one_end types (some i) n n' c c' p p'))

-- The element at a slot is the type, but for its codec.
at_slot :
    (types cur : List AvpType) (i : ℕ) (t : AvpType) (c : Codec)
    → Under types cur
    → get_elem? types i ≡ some t
    → (x : AvpType) × (get_elem? cur i ≡ some x)
      × (◌≡◌ {A = AvpType} (record x { codec = c }) (record t { codec = c }))
unfolding Under
at_slot types cur i t c u g = elim (u i t g) [
  | inl same ↦ (t, same, refl)
  | inr (n, d, ends, coded) ↦ (record t { codec = d }, coded, refl)
]

-- One round of the loop.
round :
    (types cur : List AvpType) (i : ℕ) (t : AvpType) (n : ℕ) (c : Option Codec)
    → Under types cur
    → get_elem? types i ≡ some t
    → ChainEnds types (some i) n c
    → (next : List AvpType) × (codec_found cur i c ≡ ok next)
      × Under types next
      × Set types next i
      × ((j : ℕ) → i ≢ j → get_elem? next j ≡ get_elem? cur j)
unfolding codec_found Under
round types cur i t n none u g p =
    (cur, refl, u, set_one types cur i t n none g p unchanged, (λ j ne. refl))
  where
    unchanged : get_elem? cur i ≡ some t
    unchanged = elim (u i t g) [
      | inl same ↦ same
      | inr (k, d, ends, coded) ↦
          absurd (none_some (one_end types (some i) n k none (some d) p ends))
    ]
      where
        none_some : {d : Codec} → ◌≡◌ {A = Option Codec} none (some d) → ⊥
        none_some h = cc
round types cur i t n (some c) u g p =
    let (x, found, same) = at_slot types cur i t c u g in
    let next = set cur i (record x { codec = c }) in
    let here : get_elem? next i ≡ some (record t { codec = c }) =
      get_elem?-set cur i x (record x { codec = c }) found ∙ ap some same in
    (
      next,
      rw found refl,
      (λ slot t' g'. elim (Bool-cases (slot == i)) [
        | inl e ↦
            let q : slot ≡ i = (==_iff slot i).0 e in
            let t_is : t ≡ t' = some_inj (sym g ∙ ap (get_elem? types) (sym q) ∙ g') in
            inr (
              n,
              c,
              subst (λ j. ChainEnds types (some j) n (some c)) (sym q) p,
              ap (get_elem? next) q
                  ∙ here
                  ∙ ap (λ (y : AvpType). some (record y { codec = c })) t_is,
            )
        | inr f ↦
            subst
              (λ o.
                (o ≡ some t')
                ⊎ ((k : ℕ) × (d : Codec) × ChainEnds types (some slot) k (some d)
                    × (o ≡ some (record t' { codec = d }))))
              (sym (get_elem?-set_ne cur i slot (record x { codec = c }) (λ e. ground arith)))
              (u slot t' g')
      ]),
      set_one types next i t n (some c) g p here,
      (λ j ne. get_elem?-set_ne cur i j (record x { codec = c }) ne),
    )

-- The chain from a slot ends, within the rounds that the inner loop has.
abbrev pub EndsWithin : List AvpType → ℕ → ℕ → Type 0
EndsWithin types fuel slot =
    (t : AvpType) × (n : ℕ) × (c : Option Codec) × (get_elem? types slot ≡ some t)
    × ChainEnds types (some slot) n c
    × (n < fuel)

module _ (types : List AvpType) (fuel : ℕ)
    (ends : (slot : ℕ) → slot < length types → EndsWithin types fuel slot) where
  rounds :
      (count i : ℕ) (cur : List AvpType)
      → Under types cur
      → i + count ≡ length types
      → ((j : ℕ) → j < i → Set types cur j)
      → (out : List AvpType) × (set_codecs fuel count i cur ≡ ok out)
        × ((j : ℕ) → j < length types → Set types out j)
  unfolding set_codecs Set
  rounds zero i cur u all done = (cur, refl, (λ j h. done j (omega arith)))
  rounds (suc count) i cur u all done =
      let (t, n, c, g, p, enough) = ends i (omega arith) in
      let (next, ran, u', here, others) = round types cur i t n c u g p in
      let (out, ran', done') =
        rounds count (suc i) next u' (omega arith) (λ j h. kept next here others j h) in
      (out, rw (find_codec-Under types cur (some i) n c fuel u p enough, ran) ran', done')
    where
      kept :
          (next : List AvpType)
          → Set types next i
          → ((j : ℕ) → i ≢ j → get_elem? next j ≡ get_elem? cur j)
          → (j : ℕ) → j < suc i
          → Set types next j
      kept next here others j h = elim (Bool-cases (i == j)) [
        | inl e ↦ subst (Set types next) ((==_iff i j).0 e) here
        | inr f ↦ λ t n c g p. others j (λ e. ground arith) ∙ done j (ground arith) t n c g p
      ]

  -- Where the chain of parents from every type ends, after fewer steps than the inner loop has
  -- rounds, the last loop of `dict_build` ends too, and gives every type the codec of the first type
  -- on its chain, itself included, that has one; a type with none on its chain stays as it is.
  pub set_codecs-ChainEnds :
      (out : List AvpType) × (set_codecs fuel (length types) 0 types ≡ ok out)
      × ((slot : ℕ)
          → slot < length types
          → (t : AvpType) × (n : ℕ) × (c : Option Codec) × (get_elem? types slot ≡ some t)
            × ChainEnds types (some slot) n c
            × (get_elem? out slot ≡ some (inherited t c)))
  unfolding Under Set
  set_codecs-ChainEnds =
      let (out, ran, done) =
        rounds (length types) 0 types (λ slot t g. inl g) (omega arith)
          (λ j h. absurd (omega arith)) in
      (
        out,
        ran,
        λ slot h.
            let (t, n, c, g, p, enough) = ends slot h in (t, n, c, g, p, done slot h t n c g p),
      )
