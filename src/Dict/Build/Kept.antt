-- ===== src/Dict/Build/Kept.antt =====
-- dict.c: the vendors of AVPs and the codecs of types, as `dict_build` leaves them.
use Prim.Native.String.{String}
use zdia.Prelude.{
  All-Permᴰ, ℕ, zero, suc, ◌≡◌, ◌≢◌, refl, Bool, true, false, Option, none, some, List, Run, ok,
  ◌>>=◌, non_null, each, All, All-set, All-get_elem?, IfOk, IfOk-bind, IfOk-each, anything,
  get_elem?, set, length, ℤ, Bool-cases, inl, inr, if◌then◌else◌, ltb, ◌||◌,
}
use mathlib.Core.List.{Permᴰ}
use zdia.Dict.Text.{same_text}
use zdia.Dict.Add.{cmp_cmd, cmp_avp, cmp_type, find_type}
use zdia.Dict.Xml.Kept.{NoVendor, NotInteger64, IsPoor}
use zdia.Dict.Build.{
  Sorting, sort_types, all_named, link_type, link_types, parent_found, build_avp, build_group,
  build_content, type_found, is_unknown, find_codec, codec_found, set_codecs, build_cmd, dict_build,
}
use zdia.Dict.Types.{Dict, DictAvp, AvpType, Codec, integer64, Content}

-- `qsort` returns the same elements in some order.
pub record IsSorting (q : Sorting) : Type 1 where
  pub rearranges : {A : Type 0} (cmp : A → A → ℤ) (xs : List A) → Permᴰ xs (q.sort cmp xs)

link_type-keeps :
    (types : List AvpType) (t : AvpType) (name : Option String)
    → NotInteger64 t
    → IfOk NotInteger64 (link_type types t name)
unfolding link_type parent_found
link_type-keeps types t none p = p
link_type-keeps types t (some name) p =
    IfOk-bind (λ _. Unit) NotInteger64 (find_type (some name) types 0)
      (λ found. ok (parent_found t found)) (anything (find_type (some name) types 0))
      λ found _. linked found
  where
    linked : (found : Option ℕ) → NotInteger64 (parent_found t found)
    linked none = p
    linked (some slot) = p

build_group-keeps :
    (avps : List DictAvp) (a : DictAvp) (is_group : Bool)
    → NoVendor a
    → IfOk NoVendor (build_group avps a is_group)
unfolding build_group
build_group-keeps avps a false p = p
build_group-keeps avps a true p = by_content (build_content avps a.content)
  where
    by_content :
        (r : Run Content)
        → IfOk NoVendor (r >>= λ content. ok (record a { type = some 0; content = content }))
    by_content r =
        IfOk-bind (λ _. Unit) NoVendor r
          (λ content. ok (record a { type = some 0; content = content })) (anything r) (λ c _. p)

build_avp-keeps :
    (types : List AvpType) (avps : List DictAvp) (a : DictAvp)
    → NoVendor a
    → IfOk NoVendor (build_avp types avps a)
unfolding build_avp type_found
build_avp-keeps types avps a p =
    IfOk-bind (λ _. Unit) NoVendor (same_text a.type_name (some "grouped")) _ (anything _)
      λ g _.
        IfOk-bind NoVendor NoVendor (build_group avps a g) _ (build_group-keeps avps a g p) λ b q.
          IfOk-bind (λ _. Unit) NoVendor (find_type a.type_name types 0) _ (anything _)
            λ found _. typed b found q
  where
    typed : (b : DictAvp) (found : Option ℕ) → NoVendor b → NoVendor (type_found b found)
    typed b none q = q
    typed b (some slot) q = q

IsCodec : Option Codec → Type 0
IsCodec none = Unit
IsCodec (some c) = c ≢ integer64

find_codec-keeps :
    (fuel : ℕ) (types : List AvpType) (curr : Option ℕ)
    → All NotInteger64 types
    → IfOk IsCodec (find_codec fuel types curr)
unfolding find_codec IsCodec
find_codec-keeps zero types curr p = tt
find_codec-keeps (suc fuel) types none p = tt
find_codec-keeps (suc fuel) types (some slot) p =
    at_slot (get_elem? types slot) refl (λ t. find_codec-keeps fuel types t.parent p)
  where
    at_slot :
        (o : Option AvpType)
        → get_elem? types slot ≡ o
        → ((t : AvpType) → IfOk IsCodec (find_codec fuel types t.parent))
        → IfOk IsCodec (
            non_null o >>= λ t.
            if is_unknown t.codec then find_codec fuel types t.parent else ok (some t.codec))
    at_slot none e rest = tt
    at_slot (some t) e rest = elim (Bool-cases (is_unknown t.codec)) [
      | inl u ↦ rw u (rest t)
      | inr k ↦ rw k (All-get_elem? NotInteger64 types slot t p e)
    ]

codec_found-keeps :
    (types : List AvpType) (i : ℕ) (c : Option Codec)
    → All NotInteger64 types
    → IsCodec c
    → IfOk (All NotInteger64) (codec_found types i c)
unfolding codec_found IsCodec
codec_found-keeps types i none p q = p
codec_found-keeps types i (some c) p q =
    IfOk-bind (λ _. Unit) (All NotInteger64) (non_null (get_elem? types i))
      (λ t. ok (set types i (record t { codec = c }))) (anything (non_null (get_elem? types i)))
      λ t _. All-set NotInteger64 types i (record t { codec = c }) p q

set_codecs-keeps :
    (fuel count i : ℕ) (types : List AvpType)
    → All NotInteger64 types
    → IfOk (All NotInteger64) (set_codecs fuel count i types)
unfolding set_codecs
set_codecs-keeps fuel zero i types p = p
set_codecs-keeps fuel (suc count) i types p =
    IfOk-bind IsCodec (All NotInteger64) (find_codec fuel types (some i)) _
      (find_codec-keeps fuel types (some i) p)
      λ c q.
        IfOk-bind (All NotInteger64) (All NotInteger64) (codec_found types i c) _
          (codec_found-keeps types i c p q)
          λ types' p'. set_codecs-keeps fuel count (suc i) types' p'

module _ (q : Sorting) (law : IsSorting q) (fuel : ℕ) where
  sort_types-keeps :
      (types : List AvpType) → All NotInteger64 types → IfOk (All NotInteger64) (sort_types q types)
  unfolding sort_types
  sort_types-keeps types p = elim (Bool-cases (ltb (length types) 2 || all_named types)) [
    | inl e ↦ rw e (All-Permᴰ NotInteger64 (law.rearranges cmp_type types) p)
    | inr e ↦ rw e tt
  ]

  pub dict_build-IsPoor : (d : Dict) → IsPoor d → IfOk IsPoor (dict_build q fuel d)
  unfolding dict_build link_types
  dict_build-IsPoor d p =
      IfOk-bind (λ _. Unit) IsPoor (each (build_cmd d.avps) (q.sort cmp_cmd d.cmds)) _ (anything _)
        λ cmds _.
          IfOk-bind (All NotInteger64) IsPoor (sort_types q d.types) _
            (sort_types-keeps d.types p.types)
            λ sorted ps.
              IfOk-bind (All NotInteger64) IsPoor (link_types sorted) _
                (IfOk-each NotInteger64 (λ t. link_type sorted t t.parent_name)
                  (λ t k. link_type-keeps sorted t t.parent_name k) sorted ps)
                λ linked pl.
                  IfOk-bind (All NoVendor) IsPoor
                    (each (build_avp linked (q.sort cmp_avp d.avps)) (q.sort cmp_avp d.avps)) _
                    (IfOk-each NoVendor (build_avp linked (q.sort cmp_avp d.avps))
                      (build_avp-keeps linked (q.sort cmp_avp d.avps)) (q.sort cmp_avp d.avps)
                      (All-Permᴰ NoVendor (law.rearranges cmp_avp d.avps) p.avps))
                    λ avps pa.
                      IfOk-bind (All NotInteger64) IsPoor (set_codecs fuel (length linked) 0 linked)
                        _ (set_codecs-keeps fuel (length linked) 0 linked pl)
                        λ types pt. record { avps = pa; types = pt }
