-- ===== src/Dict/Load/Items.antt =====
-- dict.c: what the handlers make of the elements of an item.
use Prim.Native.String.{String}
use zdia.Prelude.{
  ◌≡◌, refl, sym, ap, ◌∙◌, Bool-cases, inl, inr, Option, some, List, [], ◌∷◌, ◌++◌, append_assoc,
  append-nil, map, Run, ok, ◌>>=◌, length, get_elem?, set,
}
use zdia.Dict.Text.{Libc, same}
use zdia.Dict.Types.{Cmd, DictAvp, AvpRule, no_content, enums, rules}
use zdia.Dict.Xml.{
  Cursor, Rules, avp_rules, avprule, enum_of, type_of, grouped_of, element, change, push_rule,
  push_content, push_enum, add_enum, as_group, set_type_name, handle,
}
use zdia.Dict.Xml.Attrs.{Attr, Junk, new_rule, new_enum}
use zdia.Dict.Load.Trees.{Forest, leaf, visit}
use zdia.Dict.Load.Document.{
  AvpBody, typed, group, row, body_forest, type_name_of, values_of, described,
}

-- The element at the end of an array, where the pointer of the last addition points.
get_elem?-last {ℓ} :
    {A : Type ℓ} (xs : List A) (x : A) → get_elem? (xs ++ (x ∷ [])) (length xs) ≡ some x
get_elem?-last [] x = refl
get_elem?-last (y ∷ xs) x = get_elem?-last xs x

set-last {ℓ} :
    {A : Type ℓ} (xs : List A) (x y : A) → set (xs ++ (x ∷ [])) (length xs) y ≡ xs ++ (y ∷ [])
set-last [] x y = refl
set-last (z ∷ xs) x y = ap (λ t. z ∷ t) (set-last xs x y)

pub change-last {ℓ} :
    {A : Type ℓ} (f : A → Run A) (xs : List A) (x y : A)
    → f x ≡ ok y
    → change f (xs ++ (x ∷ [])) (some (length xs)) ≡ ok (xs ++ (y ∷ []))
unfolding change
change-last f xs x y e = rw (get_elem?-last xs x, e) (ap ok (set-last xs x y))

-- A cursor at the last AVP, or the last command.
abbrev pub at_avp : Cursor → List DictAvp → DictAvp → Cursor
at_avp cur avps a = record cur {
  dict = record cur.dict { avps = avps ++ (a ∷ []) };
  curr_avp = some (length avps);
}

abbrev pub at_cmd : Cursor → List Cmd → Cmd → Cursor
at_cmd cur cmds cmd = record cur {
  dict = record cur.dict { cmds = cmds ++ (cmd ∷ []) };
  curr_cmd = some (length cmds);
}

module _ (c : Libc) (junk : Junk) where
  -- Elements of one name, each of which adds to a list.
  pub visit-row {ℓ} :
      {X : Type ℓ} (name : String) (K : List X → Cursor) (make : List Attr → X)
      → ((xs : List X) (attrs : List Attr)
          → handle c junk (K xs) (element name) attrs ≡ ok (K (xs ++ (make attrs ∷ []))))
      → (all : List (List Attr)) (xs : List X) (others : Forest)
      → visit c junk (row name all others) (K xs) ≡ visit c junk others (K (xs ++ map make all))
  unfolding visit
  visit-row name K make one [] xs others = ap (λ t. visit c junk others (K t)) (sym (append-nil xs))
  visit-row name K make one (attrs ∷ rest) xs others = rw (one xs attrs) (
      visit-row name K make one rest (xs ++ (make attrs ∷ [])) others
      ∙ ap (λ t. visit c junk others (K t)) (append_assoc xs (make attrs ∷ []) (map make rest)))

  module _ (cur : Cursor) (avps : List DictAvp) where
    enum-step :
        (a b : DictAvp) (attrs : List Attr)
        → add_enum (new_enum c junk attrs) a ≡ ok b
        → handle c junk (at_avp cur avps a) enum_of attrs ≡ ok (at_avp cur avps b)
    unfolding handle
    enum-step a b attrs e = rw (change-last (add_enum (new_enum c junk attrs)) avps a b e) refl

    visit-enums :
        (a : DictAvp) (values : List (List Attr))
        → a.content ≡ no_content
        → visit c junk (row "enum" values leaf) (at_avp cur avps a)
          ≡ ok (at_avp cur avps (record a { content = values_of c junk values }))
    unfolding visit add_enum push_enum
    visit-enums a [] e = ap (λ k. ok (at_avp cur avps (record a { content = k }))) e
    visit-enums a (v ∷ vs) e =
        rw (enum-step a (record a { content = enums (new_enum c junk v ∷ []) }) v (rw e refl)) (
          visit-row "enum" (λ es. at_avp cur avps (record a { content = enums es }))
            (new_enum c junk) (λ es attrs. enum-step (record a { content = enums es }) _ attrs refl)
            vs (new_enum c junk v ∷ []) leaf)

    set_type_name-last :
        (attrs : List Attr) (a : DictAvp)
        → set_type_name attrs (avps ++ (a ∷ [])) (some (length avps))
          ≡ ok (avps ++ (record a { type_name = type_name_of attrs a.type_name } ∷ []))
    unfolding set_type_name
    set_type_name-last [] a = refl
    set_type_name-last ((key, value) ∷ attrs) a = elim (Bool-cases (same key "type-name")) [
      | inl t ↦
          let b : DictAvp = record a { type_name = some value } in
          rw
            (
              t,
              change-last (λ (x : DictAvp). ok (record x { type_name = some value })) avps a b refl,
            )
            (set_type_name-last attrs b)
      | inr f ↦ rw f (set_type_name-last attrs a)
    ]

    type-step :
        (a : DictAvp) (attrs : List Attr)
        → handle c junk (at_avp cur avps a) type_of attrs
          ≡ ok (at_avp cur avps (record a { type_name = type_name_of attrs a.type_name }))
    unfolding handle
    type-step a attrs = rw (set_type_name-last attrs a) refl

    abbrev at_rules : DictAvp → List AvpRule → Cursor
    at_rules a rs =
        record (at_avp cur avps (record a { type_name = some "grouped"; content = rules rs })) {
          curr_rules = some (avp_rules (length avps));
        }

    group-step :
        (a : DictAvp) → handle c junk (at_avp cur avps a) grouped_of [] ≡ ok (at_rules a [])
    unfolding handle
    group-step a =
        rw
          (change-last as_group avps a (record a { type_name = some "grouped"; content = rules [] })
            refl)
          refl

    rule-step :
        (a : DictAvp) (rs : List AvpRule) (attrs : List Attr)
        → handle c junk (at_rules a rs) avprule attrs
          ≡ ok (at_rules a (rs ++ (new_rule c attrs ∷ [])))
    unfolding handle push_rule push_content
    rule-step a rs attrs =
        rw
          (change-last
            (λ (x : DictAvp).
              push_content (new_rule c attrs) x.content >>= λ k. ok (record x { content = k }))
            avps (record a { type_name = some "grouped"; content = rules rs })
            (record a {
              type_name = some "grouped";
              content = rules (rs ++ (new_rule c attrs ∷ []));
            })
            refl)
          refl

    abbrev pub rules_after : AvpBody → Option Rules
    rules_after (typed attrs values) = cur.curr_rules
    rules_after (group members) = some (avp_rules (length avps))

    -- The children of an AVP.
    pub visit-body :
        (a : DictAvp) (body : AvpBody)
        → a.content ≡ no_content
        → visit c junk (body_forest body) (at_avp cur avps a)
          ≡ ok
              (record (at_avp cur avps (described c junk a body)) { curr_rules = rules_after body })
    unfolding visit
    visit-body a (typed attrs values) e =
        rw (type-step a attrs)
          (visit-enums (record a { type_name = type_name_of attrs a.type_name }) values e)
    visit-body a (group members) e =
        rw
          (
            group-step a,
            visit-row "avprule" (at_rules a) (new_rule c) (rule-step a) members [] leaf,
          )
          refl
