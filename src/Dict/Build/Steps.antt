-- ===== src/Dict/Build/Steps.antt =====
-- dict.c: what the loops of `dict_build` make of a command, a type and an AVP.
use Prim.Native.String.{String}
use zdia.Prelude.{
  ℕ, ◌≡◌, ◌≢◌, inl, inr, refl, sym, subst, Bool, true, Bool-cases, Option-cases, ◌||◌, ltb, Option,
  none, some, List, [], ◌∷◌, ok, All, Both, All-get_elem?, length,
}
use zdia.Dict.Text.Search.{AllNamed, First, find_named-First}
use zdia.Dict.Add.{cmp_type, find_type}
use zdia.Dict.Build.{
  Sorting, all_named, sort_types, parent_found, link_type, build_cmd, build_avp, type_found,
  codec_grouped,
}
use zdia.Dict.Build.Rules.{Bindable, BoundTo, dict_build_rules-BoundTo}
use zdia.Dict.Build.Groups.{build_avp-type, build_avp-grouped}
use zdia.Dict.Types.{Cmd, DictAvp, AvpRule, AvpType, rules}

-- A property that passes from the elements of a list to those that they become.
pub All-Both {ℓ} :
    {A : Type ℓ} (P : A → Type 0) (R : A → A → Type 0)
    → ((x y : A) → R x y → P x → P y)
    → (xs ys : List A) → Both R xs ys
    → All P xs
    → All P ys
All-Both P R keep [] [] r p = tt
All-Both P R keep [] (y ∷ ys) r p = absurd r
All-Both P R keep (x ∷ xs) [] r p = absurd r
All-Both P R keep (x ∷ xs) (y ∷ ys) (r, rs) (p, ps) = (keep x y r p, All-Both P R keep xs ys rs ps)

abbrev pub RulesReady : Cmd → Type 0
RulesReady cmd = All Bindable cmd.req_rules × All Bindable cmd.ans_rules

-- The rules of a command point to slots of `avps`.
pub record CmdBuilt (avps : List DictAvp) (cmd out : Cmd) : Type 0 where
  pub req : Both (BoundTo avps) cmd.req_rules out.req_rules
  pub ans : Both (BoundTo avps) cmd.ans_rules out.ans_rules
  pub code : out.code ≡ cmd.code
  pub name : out.name ≡ cmd.name

-- A type has a name, and not the one by which the source knows a group.
abbrev pub IsType : AvpType → Type 0
IsType t = ((s : String) × (t.name ≡ some s)) × (t.name ≢ some "grouped")

-- A type points to the first type with the name of its parent, if it names one that is there.
pub data Linked (types : List AvpType) (t : AvpType) (out : AvpType) : Type 0 where
  root : t.parent_name ≡ none → out ≡ t → Linked types t out
  child :
      (key : String) (found : Option ℕ)
      → t.parent_name ≡ some key
      → First (λ x. x.name) key types 0 found
      → out ≡ parent_found t found
      → Linked types t out

-- An AVP has the name of a type, and rules if it is a group.
pub data AvpReady (a : DictAvp) : Type 0 where
  plain : (key : String) → a.type_name ≡ some key → key ≢ "grouped" → AvpReady a
  a_group :
      (rs : List AvpRule)
      → a.type_name ≡ some "grouped"
      → a.content ≡ rules rs
      → All Bindable rs
      → AvpReady a

pub data AvpBuilt (types : List AvpType) (avps : List DictAvp) (a out : DictAvp) : Type 0 where
  has_type :
      (key : String) (found : Option ℕ)
      → a.type_name ≡ some key
      → key ≢ "grouped"
      → First (λ t. t.name) key types 0 found
      → out ≡ type_found a found
      → AvpBuilt types avps a out
  has_rules :
      (rs bound : List AvpRule)
      → a.type_name ≡ some "grouped"
      → a.content ≡ rules rs
      → Both (BoundTo avps) rs bound
      → out ≡ record a { type = some codec_grouped; content = rules bound }
      → AvpBuilt types avps a out

abbrev pub AvpNamed : DictAvp → Type 0
AvpNamed a = (s : String) × (a.name ≡ some s)

pub build_cmd-CmdBuilt :
    (avps : List DictAvp)
    → AllNamed (λ a. a.name) avps
    → (cmd : Cmd) → RulesReady cmd
    → (out : Cmd) × (build_cmd avps cmd ≡ ok out) × CmdBuilt avps cmd out
unfolding build_cmd
build_cmd-CmdBuilt avps avps_named cmd (req, ans) =
    let (req', ran, both) = dict_build_rules-BoundTo avps avps_named cmd.req_rules req in
    let (ans', ran', both') = dict_build_rules-BoundTo avps avps_named cmd.ans_rules ans in
    (
      record cmd { req_rules = req'; ans_rules = ans' },
      rw (ran, ran') refl,
      record { req = both; ans = both'; code = refl; name = refl },
    )

all_named-AllNamed : (types : List AvpType) → All IsType types → all_named types ≡ true
unfolding all_named
all_named-AllNamed [] p = refl
all_named-AllNamed (t ∷ ts) (((s, e), other), ps) = rw e (all_named-AllNamed ts ps)

IsType-AllNamed : (types : List AvpType) → All IsType types → AllNamed (λ t. t.name) types
IsType-AllNamed [] p = tt
IsType-AllNamed (t ∷ ts) ((n, other), ps) = (n, IsType-AllNamed ts ps)

pub sort_types-named :
    (q : Sorting) (types : List AvpType)
    → All IsType types
    → sort_types q types ≡ ok (q.sort cmp_type types)
unfolding sort_types
sort_types-named q types p = rw (all_named-AllNamed types p, or_true (ltb (length types) 2)) refl
  where
    or_true : (b : Bool) → (b || true) ≡ true
    or_true b = elim (Bool-cases b) [ inl e ↦ rw e refl | inr e ↦ rw e refl ]

pub link_type-Linked :
    (types : List AvpType)
    → All IsType types
    → (t : AvpType) → IsType t
    → (out : AvpType) × (link_type types t t.parent_name ≡ ok out) × Linked types t out
unfolding link_type find_type
link_type-Linked types p t named = elim (Option-cases t.parent_name) [
  | inl e ↦ (t, rw e refl, root e refl)
  | inr (key, e) ↦
      let (found, ran, first) =
        find_named-First (λ (x : AvpType). x.name) key types 0 (IsType-AllNamed types p) in
      (parent_found t found, rw (e, ran) refl, child key found e first refl)
]

pub Linked-IsType :
    (types : List AvpType) (t out : AvpType) → Linked types t out → IsType t → IsType out
unfolding parent_found
Linked-IsType types t out (root n e) p = subst IsType (sym e) p
Linked-IsType types t out (child key found n first e) p = subst IsType (sym e) (kept found)
  where
    kept : (o : Option ℕ) → IsType (parent_found t o)
    kept none = p
    kept (some slot) = p

pub build_avp-AvpBuilt :
    (types : List AvpType) (avps : List DictAvp)
    → All IsType types
    → AllNamed (λ a. a.name) avps
    → (a : DictAvp) → AvpReady a
    → (out : DictAvp) × (build_avp types avps a ≡ ok out) × AvpBuilt types avps a out
build_avp-AvpBuilt types avps p avps_named a (plain key e other) =
    let (found, ran, first) =
      build_avp-type types (IsType-AllNamed types p) avps avps_named a key e other in
    (type_found a found, ran, has_type key found e other first refl)
build_avp-AvpBuilt types avps p avps_named a (a_group rs e content ready) =
    let (bound, ran, both) =
      build_avp-grouped types (IsType-AllNamed types p) avps avps_named a rs e content ready
        (λ j t g. (All-get_elem? IsType types j t p g).1) in
    (
      record a { type = some codec_grouped; content = rules bound },
      ran,
      has_rules rs bound e content both refl,
    )
