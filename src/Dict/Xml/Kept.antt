-- ===== src/Dict/Xml/Kept.antt =====
-- dict.c: the vendors of AVPs and the codecs of types, as the handlers leave them.
use zdia.Prelude.{
  ℕ, ◌≡◌, ◌≢◌, refl, Option, none, some, List, [], ◌∷◌, arith, Run, ok, fault, ◌>>=◌, non_null, All,
  All-append, All-set, All-get_elem?, IfOk, IfOk-bind, anything, exited, out_of_fuel, get_elem?,
  set, Bool-cases, inl, inr,
}
use zdia.Dict.Text.{Libc, same}
use zdia.Dict.Add.{
  dict_add_app, dict_add_cmd, dict_add_avp, dict_add_avp_type, dict_add_vendor, add_found,
  find_type,
}
use zdia.Dict.Types.{Dict, DictAvp, AvpType, integer64, unknown, Cmd, AvpRule, Content}
use zdia.Dict.Xml.Attrs.{
  Attr, Junk, fill, new_avp, new_type, new_enum, avp_attr, type_attr, blank_avp,
}
use zdia.Dict.Xml.{
  Cursor, Rules, request_rules, answer_rules, avp_rules, Element, base, application, vendor,
  command, request_rules_of, answer_rules_of, grouped_of, avprule, avp, type_of, enum_of, typedefn,
  other, change, push_rule, push_content, push_enum, add_enum, as_group, set_type_name, handle,
}

abbrev pub NoVendor : DictAvp → Type 0
NoVendor a = a.vendor_id ≡ 0

abbrev pub NotInteger64 : AvpType → Type 0
NotInteger64 t = t.codec ≢ integer64

-- No AVP of the dictionary has a vendor, and no type the codec of Integer64.
pub record IsPoor (d : Dict) : Type 0 where
  pub avps : All NoVendor d.avps
  pub types : All NotInteger64 d.types

fill-keeps {ℓ κ} :
    {A : Type ℓ} (P : A → Type κ) (f : A → Attr → A)
    → ((a : A) (attr : Attr) → P a → P (f a attr))
    → (a : A) (attrs : List Attr) → P a
    → P (fill f a attrs)
fill-keeps P f k a [] p = p
fill-keeps P f k a (attr ∷ attrs) p = fill-keeps P f k (f a attr) attrs (k a attr p)

unknown-ne-integer64 : unknown ≢ integer64
unknown-ne-integer64 e = cc

new_avp-NoVendor : (c : Libc) (app : Option ℕ) (attrs : List Attr) → NoVendor (new_avp c app attrs)
unfolding new_avp avp_attr
new_avp-NoVendor c app attrs =
    fill-keeps NoVendor (avp_attr c) avp_attr-keeps (blank_avp app) attrs refl
  where
    avp_attr-keeps : (a : DictAvp) (attr : Attr) → NoVendor a → NoVendor (avp_attr c a attr)
    avp_attr-keeps a (key, value) p = ground arith

new_type-NotInteger64 : (attrs : List Attr) → NotInteger64 (new_type attrs)
unfolding new_type type_attr
new_type-NotInteger64 attrs =
    fill-keeps NotInteger64 type_attr type_attr-keeps _ attrs unknown-ne-integer64
  where
    type_attr-keeps : (t : AvpType) (attr : Attr) → NotInteger64 t → NotInteger64 (type_attr t attr)
    type_attr-keeps t (key, value) p = ground arith

change-All {ℓ κ} :
    {A : Type ℓ} (P : A → Type κ) (f : A → Run A)
    → ((x : A) → P x → IfOk P (f x))
    → (xs : List A) (curr : Option ℕ) → All P xs
    → IfOk (All P) (change f xs curr)
unfolding change
change-All P f k xs none p = tt
change-All P f k xs (some slot) p = at_slot (get_elem? xs slot) refl
  where
    at_slot :
        (o : Option _)
        → get_elem? xs slot ≡ o
        → IfOk (All P) (non_null o >>= λ x. f x >>= λ y. ok (set xs slot y))
    at_slot none e = tt
    at_slot (some x) e =
        IfOk-bind P (All P) (f x) _ (k x (All-get_elem? P xs slot x p e))
          λ y q. All-set P xs slot y p q

-- The AVPs changed, and nothing else that matters.
with_avps :
    (d : Dict) (r : Run (List DictAvp))
    → IsPoor d
    → IfOk (All NoVendor) r
    → IfOk IsPoor (r >>= λ avps. ok (record d { avps = avps }))
with_avps d r p q =
    IfOk-bind (All NoVendor) IsPoor r _ q λ avps all. record { avps = all; types = p.types }

with_cmds :
    (d : Dict) (r : Run (List Cmd))
    → IsPoor d
    → IfOk IsPoor (r >>= λ cmds. ok (record d { cmds = cmds }))
with_cmds d r p =
    IfOk-bind (λ _. Unit) IsPoor r (λ cmds. ok (record d { cmds = cmds })) (anything r)
      λ cmds _. record { avps = p.avps; types = p.types }

-- A step that goes through a pointer, and leaves a dictionary that keeps the property.
through :
    (o : Option ℕ) (k : ℕ → Cursor)
    → ((slot : ℕ) → IsPoor (k slot).dict)
    → IfOk (λ info. IsPoor info.dict) (non_null o >>= λ slot. ok (k slot))
through none k p = tt
through (some slot) k p = p slot

content-NoVendor :
    (a : DictAvp) (r : Run Content)
    → NoVendor a
    → IfOk NoVendor (r >>= λ content. ok (record a { content = content }))
content-NoVendor a (ok c) p = p
content-NoVendor a fault p = tt
content-NoVendor a exited p = tt
content-NoVendor a out_of_fuel p = tt

push_rule-IsPoor :
    (d : Dict) (rule : AvpRule) (to : Rules) → IsPoor d → IfOk IsPoor (push_rule d rule to)
unfolding push_rule
push_rule-IsPoor d rule (request_rules slot) p = with_cmds d _ p
push_rule-IsPoor d rule (answer_rules slot) p = with_cmds d _ p
push_rule-IsPoor d rule (avp_rules slot) p = with_avps d _ p (
    change-All NoVendor _ (λ a q. content-NoVendor a (push_content rule a.content) q) d.avps
      (some slot) p.avps)

set_type_name-NoVendor :
    (attrs : List Attr) (avps : List DictAvp) (curr : Option ℕ)
    → All NoVendor avps
    → IfOk (All NoVendor) (set_type_name attrs avps curr)
unfolding set_type_name
set_type_name-NoVendor [] avps curr p = p
set_type_name-NoVendor ((key, value) ∷ attrs) avps curr p =
    elim (Bool-cases (same key "type-name")) [
      | inl t ↦
          let named : DictAvp → Run DictAvp = λ a. ok (record a { type_name = some value }) in
          rw t (
            IfOk-bind (All NoVendor) (All NoVendor) (change named avps curr)
              (λ avps'. set_type_name attrs avps' curr)
              (change-All NoVendor named (λ a q. q) avps curr p)
              (λ avps' all. set_type_name-NoVendor attrs avps' curr all))
      | inr f ↦ rw f (set_type_name-NoVendor attrs avps curr p)
    ]

add_type-IsPoor :
    (d : Dict) (t : AvpType) (found : Option ℕ)
    → IsPoor d
    → NotInteger64 t
    → IsPoor (add_found d t found).1
unfolding add_found
add_type-IsPoor d t none p q = record {
  avps = p.avps;
  types = All-append NotInteger64 d.types (t ∷ []) p.types (q, tt);
}
add_type-IsPoor d t (some slot) p q = p

dict_add_avp_type-IsPoor :
    (d : Dict) (t : AvpType)
    → IsPoor d
    → NotInteger64 t
    → IfOk (λ r. IsPoor r.1) (dict_add_avp_type d t)
unfolding dict_add_avp_type
dict_add_avp_type-IsPoor d t p q =
    IfOk-bind (λ _. Unit) (λ r. IsPoor r.1) (find_type t.name d.types 0)
      (λ found. ok (add_found d t found)) (anything (find_type t.name d.types 0))
      λ found _. add_type-IsPoor d t found p q

module _ (c : Libc) (junk : Junk) where
  -- No element of the file makes a dictionary with a vendor's AVP or the codec of Integer64.
  pub handle-IsPoor :
      (info : Cursor) (el : Element) (attrs : List Attr)
      → IsPoor info.dict
      → IfOk (λ info'. IsPoor info'.dict) (handle c junk info el attrs)
  unfolding handle add_enum dict_add_app dict_add_cmd dict_add_avp dict_add_vendor
  handle-IsPoor info base attrs p = record { avps = p.avps; types = p.types }
  handle-IsPoor info application attrs p = record { avps = p.avps; types = p.types }
  handle-IsPoor info vendor attrs p = record { avps = p.avps; types = p.types }
  handle-IsPoor info command attrs p = record { avps = p.avps; types = p.types }
  handle-IsPoor info request_rules_of attrs p = through info.curr_cmd _ (λ slot. p)
  handle-IsPoor info answer_rules_of attrs p = through info.curr_cmd _ (λ slot. p)
  handle-IsPoor info grouped_of attrs p =
      IfOk-bind (All NoVendor) (λ info'. IsPoor info'.dict)
        (change as_group info.dict.avps info.curr_avp)
        (λ avps. non_null info.curr_avp >>= λ slot. ok (record info {
          dict = record info.dict { avps = avps };
          curr_rules = some (avp_rules slot);
        }))
        (change-All NoVendor as_group (λ a q. q) info.dict.avps info.curr_avp p.avps)
        λ avps all. through info.curr_avp _ (λ slot. record { avps = all; types = p.types })
  handle-IsPoor info avprule attrs p =
      IfOk-bind (λ _. Unit) _ (non_null info.curr_rules) _ (anything _)
        λ to _.
          IfOk-bind IsPoor _ (push_rule info.dict _ to) _ (push_rule-IsPoor info.dict _ to p)
            λ d q. q
  handle-IsPoor info avp attrs p = record {
    avps = All-append NoVendor info.dict.avps _ p.avps (new_avp-NoVendor c info.curr_app attrs, tt);
    types = p.types;
  }
  handle-IsPoor info type_of attrs p =
      IfOk-bind (All NoVendor) _ (set_type_name attrs info.dict.avps info.curr_avp) _
        (set_type_name-NoVendor attrs info.dict.avps info.curr_avp p.avps)
        λ avps all. record { avps = all; types = p.types }
  handle-IsPoor info enum_of attrs p =
      let e = new_enum c junk attrs in
      IfOk-bind (All NoVendor) (λ info'. IsPoor info'.dict)
        (change (add_enum e) info.dict.avps info.curr_avp)
        (λ avps. ok (record info { dict = record info.dict { avps = avps } }))
        (change-All NoVendor (add_enum e) (λ a q. content-NoVendor a (push_enum e a.content) q)
          info.dict.avps info.curr_avp p.avps)
        λ avps all. record { avps = all; types = p.types }
  handle-IsPoor info typedefn attrs p =
      IfOk-bind (λ r. IsPoor r.1) _ (dict_add_avp_type info.dict (new_type attrs)) _
        (dict_add_avp_type-IsPoor info.dict (new_type attrs) p (new_type-NotInteger64 attrs))
        λ r q. q
  handle-IsPoor info other attrs p = p
