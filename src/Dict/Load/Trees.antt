-- ===== src/Dict/Load/Trees.antt =====
-- The events of an XML document, and what the handlers of dict.c make of them, by elements.
use Prim.Native.String.{String}
use zdia.Prelude.{
  ◌≡◌, refl, sym, ap, ◌∙◌, List, [], ◌∷◌, ◌++◌, Run, ok, fault, exited, out_of_fuel, ◌>>=◌,
  bind_parts, IfOk, IfOk-bind, anything,
}
use zdia.Memory.{Memory}
use zdia.Array
use zdia.Array.{Array}
use zdia.Dict.Text.{Libc}
use zdia.Dict.Xml.{
  Cursor, ParseInfo, Element, base, application, vendor, command, request_rules_of, answer_rules_of,
  grouped_of, avprule, avp, type_of, enum_of, typedefn, other, element, handle, xml_elem_start,
  xml_elem_end,
}
use zdia.Dict.Xml.Attrs.{Attr, Junk}
use zdia.Dict.Load.{XmlEvent, starts, ends, text, on_event, on_events}

-- A row of elements: the first, with its children, and those behind it.
pub data Forest : Type 0 where
  leaf : Forest
  node : String → List Attr → Forest → Forest → Forest

-- The events that an XML parser reports for them, in front of those that follow.
unfoldable pub events_of : Forest → List XmlEvent → List XmlEvent
events_of leaf rest = rest
events_of (node name attrs kids others) rest =
    starts name attrs ∷ events_of kids (ends name ∷ events_of others rest)

-- A start tag, in front of others, unless it is one of those that dict.c has no use for, such as
-- `dictionary` and `required`.
abbrev keep : Element → List Attr → List (Element × List Attr) → List (Element × List Attr)
keep other attrs ts = ts
keep base attrs ts = (base, attrs) ∷ ts
keep application attrs ts = (application, attrs) ∷ ts
keep vendor attrs ts = (vendor, attrs) ∷ ts
keep command attrs ts = (command, attrs) ∷ ts
keep request_rules_of attrs ts = (request_rules_of, attrs) ∷ ts
keep answer_rules_of attrs ts = (answer_rules_of, attrs) ∷ ts
keep grouped_of attrs ts = (grouped_of, attrs) ∷ ts
keep avprule attrs ts = (avprule, attrs) ∷ ts
keep avp attrs ts = (avp, attrs) ∷ ts
keep type_of attrs ts = (type_of, attrs) ∷ ts
keep enum_of attrs ts = (enum_of, attrs) ∷ ts
keep typedefn attrs ts = (typedefn, attrs) ∷ ts

-- The start tags among the events that dict.c has a use for.
unfoldable pub tags : List XmlEvent → List (Element × List Attr)
tags [] = []
tags (starts name attrs ∷ es) = keep (element name) attrs (tags es)
tags (ends name ∷ es) = tags es
tags (text chars ∷ es) = tags es

module _ (c : Libc) (junk : Junk) where
  -- The elements in the order of their start tags.
  unfoldable pub visit : Forest → Cursor → Run Cursor
  visit leaf cur = ok cur
  visit (node name attrs kids others) cur = handle c junk cur (element name) attrs >>= λ cur1.
      visit kids cur1 >>= λ cur2. visit others cur2

  -- What the handlers do beside keeping the path of names, on one event after another.
  unfoldable pub handle_all : Cursor → List XmlEvent → Run Cursor
  unfolding handle
  handle_all cur [] = ok cur
  handle_all cur (starts name attrs ∷ es) =
      handle c junk cur (element name) attrs >>= λ cur'. handle_all cur' es
  handle_all cur (ends name ∷ es) = handle_all cur es
  handle_all cur (text chars ∷ es) = handle_all cur es

  follow : Cursor → List (Element × List Attr) → Run Cursor
  unfolding handle
  follow cur [] = ok cur
  follow cur ((e, attrs) ∷ ts) = handle c junk cur e attrs >>= λ cur'. follow cur' ts

  follow-keep :
      (cur : Cursor) (e : Element) (attrs : List Attr) (ts : List (Element × List Attr))
      → follow cur (keep e attrs ts) ≡ (handle c junk cur e attrs >>= λ cur'. follow cur' ts)
  unfolding follow handle
  follow-keep cur other attrs ts = refl
  follow-keep cur base attrs ts = refl
  follow-keep cur application attrs ts = refl
  follow-keep cur vendor attrs ts = refl
  follow-keep cur command attrs ts = refl
  follow-keep cur request_rules_of attrs ts = refl
  follow-keep cur answer_rules_of attrs ts = refl
  follow-keep cur grouped_of attrs ts = refl
  follow-keep cur avprule attrs ts = refl
  follow-keep cur avp attrs ts = refl
  follow-keep cur type_of attrs ts = refl
  follow-keep cur enum_of attrs ts = refl
  follow-keep cur typedefn attrs ts = refl

  bind-same {ℓ κ} :
      {A : Type ℓ} {B : Type κ} (r : Run A) (f g : A → Run B)
      → ((a : A) → f a ≡ g a)
      → (r >>= f) ≡ (r >>= g)
  bind-same (ok a) f g e = e a
  bind-same fault f g e = refl
  bind-same exited f g e = refl
  bind-same out_of_fuel f g e = refl

  -- Only the tags count.
  handle_all-tags : (es : List XmlEvent) (cur : Cursor) → handle_all cur es ≡ follow cur (tags es)
  unfolding handle_all follow tags
  handle_all-tags [] cur = refl
  handle_all-tags (starts name attrs ∷ es) cur =
      bind-same (handle c junk cur (element name) attrs) (λ cur'. handle_all cur' es)
        (λ cur'. follow cur' (tags es)) (handle_all-tags es)
      ∙ sym (follow-keep cur (element name) attrs (tags es))
  handle_all-tags (ends name ∷ es) cur = handle_all-tags es cur
  handle_all-tags (text chars ∷ es) cur = handle_all-tags es cur

  pub handle_all-same_tags :
      (es fs : List XmlEvent) (cur : Cursor)
      → tags es ≡ tags fs
      → handle_all cur es ≡ handle_all cur fs
  handle_all-same_tags es fs cur same =
      handle_all-tags es cur ∙ ap (follow cur) same ∙ sym (handle_all-tags fs cur)

  -- The events of elements run as the elements do.
  pub handle_all-visit :
      (f : Forest) (cur cur' : Cursor) (rest : List XmlEvent)
      → visit f cur ≡ ok cur'
      → handle_all cur (events_of f rest) ≡ handle_all cur' rest
  unfolding visit events_of handle_all
  handle_all-visit leaf cur cur' rest e = ap (λ k. handle_all k rest) (ok_back e)
    where
      ok_back : ◌≡◌ {A = Run Cursor} (ok cur) (ok cur') → cur ≡ cur'
      ok_back h = cc
  handle_all-visit (node name attrs kids others) cur cur' rest e =
      let (cur1, handled, e1) = bind_parts (handle c junk cur (element name) attrs) _ cur' e in
      let (cur2, inner, outer) = bind_parts (visit kids cur1) _ cur' e1 in
      rw handled (
        handle_all-visit kids cur1 cur2 (ends name ∷ events_of others rest) inner
        ∙ handle_all-visit others cur2 cur' rest outer)

  pub handle_all-append :
      (es fs : List XmlEvent) (cur cur' : Cursor)
      → handle_all cur es ≡ ok cur'
      → handle_all cur (es ++ fs) ≡ handle_all cur' fs
  unfolding handle_all
  handle_all-append [] fs cur cur' e = ap (λ k. handle_all k fs) (ok_back e)
    where
      ok_back : ◌≡◌ {A = Run Cursor} (ok cur) (ok cur') → cur ≡ cur'
      ok_back h = cc
  handle_all-append (starts name attrs ∷ es) fs cur cur' e =
      let (cur1, handled, rest) = bind_parts (handle c junk cur (element name) attrs) _ cur' e in
      rw handled (handle_all-append es fs cur1 cur' rest)
  handle_all-append (ends name ∷ es) fs cur cur' e = handle_all-append es fs cur cur' e
  handle_all-append (text chars ∷ es) fs cur cur' e = handle_all-append es fs cur cur' e

  own_value {ℓ} : {A : Type ℓ} (r : Run A) → IfOk (λ a. r ≡ ok a) r
  own_value (ok a) = refl
  own_value fault = tt
  own_value exited = tt
  own_value out_of_fuel = tt

  IfOk-map {ℓ} :
      {A : Type ℓ} (P Q : A → Type 0) (r : Run A) → ((a : A) → P a → Q a) → IfOk P r → IfOk Q r
  IfOk-map P Q (ok a) f p = f a p
  IfOk-map P Q fault f p = tt
  IfOk-map P Q exited f p = tt
  IfOk-map P Q out_of_fuel f p = tt

  -- Whatever becomes of the path, if the handlers return, they have done that.
  pub on_events-handle_all :
      (m : Memory) (es : List XmlEvent) (info : ParseInfo)
      → IfOk (λ info'. handle_all info.cursor es ≡ ok info'.cursor) (on_events m c junk info es)
  unfolding handle_all on_events on_event xml_elem_start xml_elem_end
  on_events-handle_all m [] info = refl
  on_events-handle_all m (starts name attrs ∷ es) info =
      IfOk-bind (λ info1. handle c junk info.cursor (element name) attrs ≡ ok info1.cursor)
        (λ info'. handle_all info.cursor (starts name attrs ∷ es) ≡ ok info'.cursor)
        (on_event m c junk info (starts name attrs)) (λ info1. on_events m c junk info1 es) pushed
        λ info1 handled.
          IfOk-map _ _ (on_events m c junk info1 es) (λ info' e. rw handled e)
            (on_events-handle_all m es info1)
    where
      pushed :
          IfOk
            (λ info1. handle c junk info.cursor (element name) attrs ≡ ok info1.cursor)
            (on_event m c junk info (starts name attrs))
      pushed =
          IfOk-bind (λ _. Unit) _ (Array.push_back m info.path (c.strdup name)) _
            (anything (Array.push_back m info.path (c.strdup name)))
            λ r _.
              IfOk-bind _ _ (handle c junk info.cursor (element name) attrs) _
                (own_value (handle c junk info.cursor (element name) attrs)) λ cursor e. e
  on_events-handle_all m (ends name ∷ es) info = on_events-handle_all m es (xml_elem_end info)
  on_events-handle_all m (text chars ∷ es) info = on_events-handle_all m es info
