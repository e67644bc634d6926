-- ===== src/Tests/Ids.antt =====
-- crates/intid at concrete inputs.
use idmap_rs.Common.{◌≡◌, refl, none}
use idmap_rs.Run.{panic, invalid_id, undefined}
use idmap_rs.Intid.Uint
use idmap_rs.Intid.Uint.{
  u8, u32, u128, to_usize_checked, from_usize_checked, from_usize_wrapping, to_usize_wrapping,
  from_usize_wrapping-to_usize_checked, to_usize_checked-from_usize_checked_iff,
}
use idmap_rs.Intid.Id.{from_int_default}
use idmap_rs.Intid.Impls.{nonzero_id, nonzero?, nonzero_unchecked}
use idmap_rs.Tests.Setup.{x86_64, u32_id}

-- overflow and truncation
u8_overflow : Uint.checked_add u8 200 56 ≡ none
unfolding Uint.checked_add
u8_overflow = refl

u128_too_large : to_usize_checked u128 0x1_0000_0000_0000_0000 ≡ none
unfolding to_usize_checked
u128_too_large = refl

u128_wraps : to_usize_wrapping u128 0x1_0000_0000_0000_0005 ≡ 5
unfolding to_usize_wrapping
u128_wraps = refl

-- zero is no `NonZero`
nonzero_zero :
    ((nonzero_id u8).from_int 0 ≡ panic (invalid_id 0))
    × ((nonzero_id u8).from_int_unchecked 0 ≡ undefined)
unfolding nonzero? nonzero_unchecked from_int_default
nonzero_zero = (refl, refl)
