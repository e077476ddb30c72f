-- ===== src/Listing/Built.antt =====
-- test.c and dict.c: the listing of a dictionary that `dict_build` has made.
use zdia.Prelude.{
  All-Permᴰ, All-Permᴰ-back, Permᴰ-length, Both-length, All-both, All-map, ℕ, ◌≡◌, refl, ◌∙◌, List,
  ok, length, All,
}
use zdia.Dict.Build.{Sorting, dict_build}
use zdia.Dict.Build.Kept.{IsSorting}
use zdia.Dict.Build.Steps.{All-Both, AvpReady, AvpBuilt}
use zdia.Dict.Build.Whole.{IsReady, dict_build-IsBuilt}
use zdia.Dict.Add.{cmp_cmd, cmp_avp}
use zdia.Dict.Types.{Dict}
use zdia.Listing.{Line, cmd_lines, avp_lines, lines_of, page, listing}
use zdia.Listing.Decides.{Decides, Decides-then, lines_of-All, Decides-iff}
use zdia.Listing.Rules.{CmdResolves, CmdUnbound, cmds-Decides}
use zdia.Listing.Shown.{PlainContent, Shows, Ready-Shows, avp_lines-Shows, AvpBuilt-Shows}

listing-Decides :
    (P : Type 0) (b : Dict)
    → Decides P (lines_of (cmd_lines b.avps) b.cmds)
    → (out : List Line) × (lines_of avp_lines b.avps ≡ ok out)
    → Decides P (listing b)
unfolding listing
listing-Decides P b cmds (out, e) =
    Decides-then P (lines_of (cmd_lines b.avps) b.cmds) _ cmds (λ c. (page b c out, rw e refl))

module _ (q : Sorting) (law : IsSorting q) (fuel : ℕ) (d : Dict) (ready : IsReady q fuel d) where
  -- The listing of `main` after `dict_build`. Where `dict_build` finds what it relies on, no rule of a
  -- command is bound before it, and only AVPs of type `grouped` have rules, `dict_build` succeeds, and
  -- the listing of the result is printed to its end exactly if every rule of every command
  -- has the name of an AVP. If one rule has not, the listing faults: the pointer of that rule to its
  -- AVP is null.
  pub dict_build-listing :
      All CmdUnbound d.cmds
      → All PlainContent d.avps
      → (b : Dict) × (dict_build q fuel d ≡ ok b)
        × Decides (All (CmdResolves d.avps) d.cmds) (listing b)
  dict_build-listing unbound plain_content =
      let (b, e, built) = dict_build-IsBuilt q law fuel d ready in
      let cmds = q.sort cmp_cmd d.cmds in
      let avps = q.sort cmp_avp d.avps in
      let perm = law.rearranges cmp_cmd d.cmds in
      let perm' = law.rearranges cmp_avp d.avps in
      let len : length b.avps ≡ length d.avps =
        Both-length (AvpBuilt built.linked avps) avps b.avps built.avps ∙ Permᴰ-length perm' in
      let shows : All Shows b.avps =
        All-Both Shows (AvpBuilt built.linked avps)
          (λ x y r s. AvpBuilt-Shows built.linked avps x y r s) avps b.avps built.avps
          (All-Permᴰ Shows perm' (
            All-map (λ a. AvpReady a × PlainContent a) Shows Ready-Shows d.avps
              (All-both AvpReady PlainContent d.avps ready.avps plain_content))) in
      (
        b,
        e,
        listing-Decides (All (CmdResolves d.avps) d.cmds) b
            (Decides-iff (All (CmdResolves d.avps) cmds) (All (CmdResolves d.avps) d.cmds)
              (lines_of (cmd_lines b.avps) b.cmds) (All-Permᴰ-back (CmdResolves d.avps) perm)
              (All-Permᴰ (CmdResolves d.avps) perm)
              (cmds-Decides d.avps b.avps len cmds b.cmds (All-Permᴰ CmdUnbound perm unbound)
                built.cmds))
            (lines_of-All Shows avp_lines avp_lines-Shows b.avps shows),
      )
