-- ===== src/Tests/Texts.antt =====
-- The texts of messages, at concrete inputs; the first two are the examples of the documentation.
use idmap_rs.Common.{◌≡◌, ◌≢◌, ◌⊎◌, refl}
use idmap_rs.Intid.Uint.{max_value, u8, u32, usize}
use idmap_rs.Intid.Uint.Text.{
  codes, debug_desc, debug_desc_lem, max_text, AreDigits, value_of, invalid_id_message,
}
use idmap_rs.Direct.{oom_id_message}
use idmap_rs.Alloc.{exhausted_message}
use idmap_rs.Direct.Serde.{map_expecting, set_expecting}
use idmap_rs.Tests.Setup.{x86_64}

three_shown : debug_desc u32 3 ≡ codes "3"
unfolding debug_desc
three_shown = refl

largest_named : debug_desc u32 0xffff_ffff ≡ codes "u32::MAX"
unfolding debug_desc
largest_named = refl

invalid_text : invalid_id_message u8 170 ≡ codes "Invalid id: 170"
unfolding invalid_id_message
invalid_text = refl

oom_text :
    oom_id_message usize 0xffff_ffff_ffff_ffff ≡ codes "Storing id would exhaust memory: usize::MAX"
unfolding oom_id_message
oom_text = refl

expecting_texts : (map_expecting ≡ codes "a DirectIdMap") × (set_expecting ≡ codes "a DirectIdSet")
expecting_texts = (refl, refl)

exhausted_text : exhausted_message (codes "u8") ≡ codes "Ran out of ids for u8"
exhausted_text = refl

debug_desc_lem_example :
    ((255 ≡ max_value u8) × (debug_desc u8 255 ≡ max_text u8))
    ⊎ ((255 ≢ max_value u8) × AreDigits (debug_desc u8 255) × (value_of (debug_desc u8 255) ≡ 255))
debug_desc_lem_example = debug_desc_lem u8 255
