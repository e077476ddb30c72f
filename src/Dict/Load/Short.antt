-- ===== src/Dict/Load/Short.antt =====
-- dict.c: `dict_add_dict` on a file with a short tag below its first.
use Prim.Native.String.{String}
use zdia.Prelude.{
  ℕ, ◌+◌, ◌<◌, ◌≡◌, refl, inl, inr, true, All, List, [], ◌∷◌, ◌++◌, arith, Run, ok, fault, exited,
  out_of_fuel, ◌>>=◌, length,
}
use zdia.Memory.{Memory, IsLawful, Grants}
use zdia.Dict.Text.{Libc, codes}
use zdia.Dict.Types.{Dict}
use zdia.Dict.Build.{Sorting}
use zdia.Dict.Xml.{ParseInfo, handle, xml_elem_start}
use zdia.Dict.Xml.Attrs.{Attr, Junk}
use zdia.Dict.Load.{XmlEvent, starts, ends, text, on_event, on_events, read_loop, dict_add_dict}
use zdia.Dict.Load.Path.{IsPath, init-IsPath, push-IsPath, xml_elem_start-short}
use zdia.Dict.Load.Whole.{rounds_of, joined}

-- `strdup` copies the characters of a text and its terminating zero, and no more.
abbrev pub CopiesText : Libc → Type 0
CopiesText c = (name : String) → length (c.strdup name) ≡ length (codes name) + 1

abbrev pub IsText : XmlEvent → Type 0
IsText (text chars) = Unit
IsText (starts name attrs) = ⊥
IsText (ends name) = ⊥

module _ (m : Memory) (c : Libc) (junk : Junk) where
  same_fault {ℓ κ μ} :
      {A : Type ℓ} {B : Type κ} {C : Type μ} (r : Run A) (f : A → Run B) (g : A → Run C)
      → ((a : A) → f a ≡ fault → g a ≡ fault)
      → (r >>= f) ≡ fault
      → (r >>= g) ≡ fault
  same_fault (ok a) f g k e = k a e
  same_fault fault f g k e = refl
  same_fault exited f g k e = cc
  same_fault out_of_fuel f g k e = cc

  on_events-append :
      (info : ParseInfo) (es fs : List XmlEvent)
      → on_events m c junk info (es ++ fs) ≡ fault
      → (on_events m c junk info es >>= λ info'. on_events m c junk info' fs) ≡ fault
  unfolding on_events
  on_events-append info [] fs e = e
  on_events-append info (x ∷ es) fs e =
      nested (λ info'. on_events-append info' es fs) (on_event m c junk info x) e
    where
      nested :
          ((info' : ParseInfo)
            → on_events m c junk info' (es ++ fs) ≡ fault
            → (on_events m c junk info' es >>= λ k. on_events m c junk k fs) ≡ fault)
          → (r : Run ParseInfo) → (r >>= λ info'. on_events m c junk info' (es ++ fs)) ≡ fault
          → ((r >>= λ info'. on_events m c junk info' es) >>= λ k. on_events m c junk k fs) ≡ fault
      nested step (ok info') h = step info' h
      nested step fault h = refl
      nested step exited h = cc
      nested step out_of_fuel h = cc

  read_loop-joined :
      (es : List XmlEvent) (more : List (List XmlEvent)) (info : ParseInfo)
      → on_events m c junk info (joined es more) ≡ fault
      → read_loop m c junk info (rounds_of es more) ≡ fault
  unfolding read_loop rounds_of
  read_loop-joined es [] info e = rw e refl
  read_loop-joined es (fs ∷ more) info e =
      same_fault (on_events m c junk info es) (λ info'. on_events m c junk info' (joined fs more))
        (λ info'. read_loop m c junk info' (rounds_of fs more))
        (λ info' h. read_loop-joined fs more info' h) (on_events-append info es (joined fs more) e)

  module _ (law : IsLawful m) (limit : ℕ) (grants : Grants m limit) (room : 128 < limit)
      (copies : CopiesText c) where
    texts-short :
        (texts rest : List XmlEvent) (info : ParseInfo) (name : String) (attrs : List Attr)
        → All IsText texts
        → IsPath info.path 1
        → length (codes name) < 7
        → on_events m c junk info (texts ++ (starts name attrs ∷ rest)) ≡ fault
    unfolding on_events on_event
    texts-short [] rest info name attrs all p short =
        rw
          (xml_elem_start-short m law limit grants room c junk info name attrs 1 p
            (omega (arith, copies name)))
          refl
    texts-short (text chars ∷ texts) rest info name attrs (_, all) p short =
        texts-short texts rest info name attrs all p short
    texts-short (starts tag others ∷ texts) rest info name attrs (never, all) p short = absurd never
    texts-short (ends tag ∷ texts) rest info name attrs (never, all) p short = absurd never

    document-short :
        (texts rest : List XmlEvent) (info : ParseInfo) (name : String) (attrs attrs' : List Attr)
        → All IsText texts
        → IsPath info.path 0
        → length (codes name) < 7
        → on_events m c junk info (starts "dictionary" attrs ∷ texts ++ (starts name attrs' ∷ rest))
          ≡ fault
    unfolding on_events on_event xml_elem_start handle
    document-short texts rest info name attrs attrs' all p short =
        let eleven : length (codes "dictionary") ≡ 10 = refl in
        let (path, pushed, p1) =
          push-IsPath m law limit grants room info.path 0 (c.strdup "dictionary") p (omega arith)
            (omega (arith, copies "dictionary", eleven)) in
        rw pushed (
          texts-short texts rest (record { path = path; cursor = info.cursor }) name attrs' all p1
            short)

    -- Where memory is granted and `strdup` copies a text with its terminating zero and no more, let the
    -- parser report a file, in any pieces, that starts with the tag `dictionary`, and whose
    -- next tag, behind texts only, has a name of less than seven characters, as `vendor` and `base`.
    -- Then `dict_add_dict` faults, whatever follows in the file and whatever the stack holds.
    pub dict_add_dict-short :
        (q : Sorting) (fuel : ℕ) (d : Dict) (stack : ParseInfo) (attrs attrs' : List Attr)
        (name : String) (texts rest es : List XmlEvent) (more : List (List XmlEvent))
        → All IsText texts
        → length (codes name) < 7
        → joined es more ≡ starts "dictionary" attrs ∷ texts ++ (starts name attrs' ∷ rest)
        → dict_add_dict m c junk q fuel d stack
            (record { created = true; opened = true; rounds = rounds_of es more })
          ≡ fault
    unfolding dict_add_dict
    dict_add_dict-short q fuel d stack attrs attrs' name texts rest es more all short pieces =
        elim (init-IsPath m law limit grants room stack.path) [
          | inl e ↦ rw e refl
          | inr (path, e, p) ↦
              let info : ParseInfo = record {
                path = path;
                cursor = record stack.cursor { dict = d };
              } in
              rw
                (
                  e,
                  read_loop-joined es more info
                      (rw pieces (document-short texts rest info name attrs attrs' all p short)),
                )
                refl
        ]
