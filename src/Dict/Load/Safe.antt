-- ===== src/Dict/Load/Safe.antt =====
-- dict.c: the vendors of AVPs and the codecs of types in a dictionary that is read from files.
use zdia.Prelude.{
  ℕ, zero, suc, ◌≡◌, ◌≢◌, refl, sym, Bool, true, false, not, none, some, List, [], ◌∷◌, Run, ok,
  ◌>>=◌, All, IfOk, IfOk-bind, IfOk-ok, anything, if◌then◌else◌, ◌&&◌, ◌==◌, ne→==, get_elem?,
  All-get_elem?,
}
use zdia.Array
use zdia.Array.{Array}
use zdia.Memory.{Memory}
use zdia.Dict.{get_avp, get_avp_loop}
use zdia.Dict.Text.{Libc}
use zdia.Dict.Types.{Dict, DictAvp, AvpType, integer64}
use zdia.Dict.Add.{dict_new}
use zdia.Dict.Build.{Sorting, dict_build}
use zdia.Dict.Build.Kept.{IsSorting, dict_build-IsPoor}
use zdia.Dict.Xml.{ParseInfo, xml_elem_start, xml_elem_end, handle, element}
use zdia.Dict.Xml.Attrs.{Junk}
use zdia.Dict.Xml.Kept.{NoVendor, NotInteger64, IsPoor, handle-IsPoor}
use zdia.Dict.Load.{
  XmlEvent, starts, ends, text, Round, read_error, parsed, Source, on_event, on_events, read_loop,
  finish, dict_add_dict, load_files, sizeof_pointer, nothing,
}

module _ (m : Memory) (c : Libc) (junk : Junk) where
  on_event-IsPoor :
      (info : ParseInfo) (e : XmlEvent)
      → IsPoor info.cursor.dict
      → IfOk (λ info'. IsPoor info'.cursor.dict) (on_event m c junk info e)
  unfolding on_event xml_elem_start xml_elem_end
  on_event-IsPoor info (starts name attrs) p =
      IfOk-bind (λ _. Unit) (λ info'. IsPoor info'.cursor.dict)
        (Array.push_back m info.path (c.strdup name))
        (λ r. handle c junk info.cursor (element name) attrs >>= λ cursor.
          ok (record { path = r.1; cursor = cursor }))
        (anything (Array.push_back m info.path (c.strdup name)))
        λ r _.
          IfOk-bind (λ cursor. IsPoor cursor.dict) (λ info'. IsPoor info'.cursor.dict)
            (handle c junk info.cursor (element name) attrs)
            (λ cursor. ok (record { path = r.1; cursor = cursor }))
            (handle-IsPoor c junk info.cursor (element name) attrs p) (λ cursor p'. p')
  on_event-IsPoor info (ends name) p = p
  on_event-IsPoor info (text chars) p = p

  on_events-IsPoor :
      (es : List XmlEvent) (info : ParseInfo)
      → IsPoor info.cursor.dict
      → IfOk (λ info'. IsPoor info'.cursor.dict) (on_events m c junk info es)
  unfolding on_events
  on_events-IsPoor [] info p = p
  on_events-IsPoor (e ∷ es) info p =
      IfOk-bind (λ info'. IsPoor info'.cursor.dict) (λ info'. IsPoor info'.cursor.dict)
        (on_event m c junk info e) (λ info'. on_events m c junk info' es) (on_event-IsPoor info e p)
        λ info' p'. on_events-IsPoor es info' p'

  read_loop-IsPoor :
      (rounds : List Round) (info : ParseInfo)
      → IsPoor info.cursor.dict
      → IfOk (λ r. IsPoor r.1.cursor.dict) (read_loop m c junk info rounds)
  unfolding read_loop
  read_loop-IsPoor [] info p = tt
  read_loop-IsPoor (read_error ∷ rounds) info p = p
  read_loop-IsPoor (parsed events fine done ∷ rounds) info p =
      IfOk-bind (λ info'. IsPoor info'.cursor.dict) (λ r. IsPoor r.1.cursor.dict)
        (on_events m c junk info events)
        (λ info'.
          if not fine
          then ok (22, info')
          else if done
          then ok (0, info')
          else read_loop m c junk info' rounds)
        (on_events-IsPoor events info p)
        λ info' p'. after info' p' fine done (read_loop-IsPoor rounds info' p')
    where
      after :
          (info' : ParseInfo)
          → IsPoor info'.cursor.dict
          → (fine done : Bool)
          → IfOk (λ r. IsPoor r.1.cursor.dict) (read_loop m c junk info' rounds)
          → IfOk
              (λ r. IsPoor r.1.cursor.dict)
              (if not fine
                then ok (22, info')
                else if done
                then ok (0, info')
                else read_loop m c junk info' rounds)
      after info' p' false done rest = p'
      after info' p' true true rest = p'
      after info' p' true false rest = rest

  module _ (q : Sorting) (law : IsSorting q) (fuel : ℕ) where
    finish-IsPoor :
        (r : ℕ × ParseInfo)
        → IsPoor r.1.cursor.dict
        → IfOk (λ r'. IsPoor r'.1) (finish m c junk q fuel r)
    unfolding finish
    finish-IsPoor (zero, info) p =
        IfOk-bind IsPoor (λ r'. IsPoor r'.1) (dict_build q fuel info.cursor.dict) (λ d. ok (0, d))
          (dict_build-IsPoor q law fuel info.cursor.dict p) (λ d p'. p')
    finish-IsPoor (suc error, info) p = p

    -- Whatever files `dict_add_dict` reads into a dictionary, and whether it succeeds or not, no AVP
    -- gets a vendor, and no type the codec of Integer64, if none had one before.
    pub dict_add_dict-IsPoor :
        (d : Dict) (stack : ParseInfo) (src : Source)
        → IsPoor d
        → IfOk (λ r. IsPoor r.1) (dict_add_dict m c junk q fuel d stack src)
    unfolding dict_add_dict
    dict_add_dict-IsPoor d stack src p =
        IfOk-bind (λ _. Unit) (λ r. IsPoor r.1) (Array.init m stack.path sizeof_pointer nothing)
          (λ r.
            opened (record { path = r.0; cursor = record stack.cursor { dict = d } }) src.created
              src.opened)
          (anything (Array.init m stack.path sizeof_pointer nothing))
          λ r _.
            safe (record { path = r.0; cursor = record stack.cursor { dict = d } }) p src.created
              src.opened
      where
        opened : ParseInfo → Bool → Bool → Run (ℕ × Dict)
        opened info made open_file =
            if not made
            then ok (12, d)
            else if not open_file
            then ok (77, d)
            else read_loop m c junk info src.rounds >>= finish m c junk q fuel

        safe :
            (info : ParseInfo)
            → IsPoor info.cursor.dict
            → (made open_file : Bool) → IfOk (λ r. IsPoor r.1) (opened info made open_file)
        safe info pi false open_file = p
        safe info pi true false = p
        safe info pi true true =
            IfOk-bind (λ r. IsPoor r.1.cursor.dict) (λ r. IsPoor r.1)
              (read_loop m c junk info src.rounds) (finish m c junk q fuel)
              (read_loop-IsPoor src.rounds info pi) finish-IsPoor

    load_files-IsPoor :
        (files : List (ParseInfo × Source)) (d : Dict)
        → IsPoor d
        → IfOk IsPoor (load_files m c junk q fuel d files)
    unfolding load_files
    load_files-IsPoor [] d p = p
    load_files-IsPoor ((stack, src) ∷ files) d p =
        IfOk-bind (λ r. IsPoor r.1) IsPoor (dict_add_dict m c junk q fuel d stack src)
          (λ r. load_files m c junk q fuel r.1 files) (dict_add_dict-IsPoor d stack src p)
          λ r p'. load_files-IsPoor files r.1 p'

-- The dictionary that `dict_new` makes is such a one.
dict_new-IsPoor : IsPoor dict_new
unfolding dict_new
dict_new-IsPoor = record {
  avps = tt;
  types = (
    (λ e. cc),
    ((λ e. cc), ((λ e. cc), ((λ e. cc), ((λ e. cc), ((λ e. cc), ((λ e. cc), ((λ e. cc), tt))))))),
  );
}

get_avp_loop-none :
    (avps : List DictAvp) (code vendor : ℕ)
    → All NoVendor avps
    → vendor ≢ 0
    → get_avp_loop avps code vendor ≡ none
unfolding get_avp_loop
get_avp_loop-none [] code vendor p v = refl
get_avp_loop-none (a ∷ avps) code vendor (p, ps) v =
    rw (p, ne→== 0 vendor (λ e. v (sym e)), and_false (a.code == code))
      (get_avp_loop-none avps code vendor ps v)
  where
    and_false : (b : Bool) → (b && false) ≡ false
    and_false true = refl
    and_false false = refl

module _ (m : Memory) (c : Libc) (junk : Junk) (q : Sorting) (law : IsSorting q) (fuel : ℕ)
    (files : List (ParseInfo × Source)) (d : Dict)
    (loaded : load_files m c junk q fuel dict_new files ≡ ok d) where
  loaded-IsPoor : IsPoor d
  loaded-IsPoor =
      IfOk-ok IsPoor (load_files m c junk q fuel dict_new files) d
        (load_files-IsPoor m c junk q law fuel files dict_new dict_new-IsPoor) loaded

  -- In a dictionary that was read from any files, `dict_get_avp` finds nothing for a vendor id other
  -- than 0, and no type has the codec of Integer64.
  pub loaded-vendors :
      ((code vendor : ℕ) → vendor ≢ 0 → get_avp d code vendor ≡ none)
      × ((slot : ℕ) (t : AvpType) → get_elem? d.types slot ≡ some t → t.codec ≢ integer64)
  unfolding get_avp
  loaded-vendors = (
    λ code vendor v. get_avp_loop-none d.avps code vendor loaded-IsPoor.avps v,
    λ slot t e. All-get_elem? NotInteger64 d.types slot t loaded-IsPoor.types e,
  )
