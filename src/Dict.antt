-- ===== src/Dict.antt =====
-- dict.c: lookup in the Diameter dictionary. How one is made stands in the modules below.
pub mod Types
pub mod Text
pub mod Add
pub mod Build
pub mod Xml
pub mod Load
use zdia.Prelude.{ℕ, Option, none, some, List, [], ◌∷◌, ◌&&◌, ◌==◌, if◌then◌else◌}
use Types.{Dict, DictAvp, Cmd}

-- The loop of `dict_get_avp` over the elements from slot `i` on.
pub get_avp_loop : List DictAvp → ℕ → ℕ → Option DictAvp
get_avp_loop [] code vendor_id = none
get_avp_loop (da ∷ das) code vendor_id =
    if da.code == code && da.vendor_id == vendor_id
    then some da
    else get_avp_loop das code vendor_id

unfoldable pub get_avp : Dict → ℕ → ℕ → Option DictAvp
unfolding get_avp_loop
get_avp d code vendor_id = get_avp_loop d.avps code vendor_id

-- As the source has it.
unfoldable pub get_cmd : Dict → ℕ → ℕ → Option Cmd
get_cmd d code app = none
