-- ===== src/Tests/Tags.antt =====
-- An array of one tag with two entries.
use c_spock_bot.Prelude.{ℕ, ◌≡◌, refl, arith, true, false, List, [], ◌∷◌, ◌++◌}
use c_spock_bot.Outcome.{ok}
use c_spock_bot.Itemtags.{Itemtag, ItemtagArray, enc_itemtag_array, dec_itemtag_array}
use c_spock_bot.Itemtags.RoundTrip.{IsItemtag, IsItemtagArray, dec_itemtag_array-enc_itemtag_array}
use c_spock_bot.Tests.Library.{library}

abbrev wool : Itemtag library
wool = record { name = true ∷ false ∷ []; len = 2; entries = 5 ∷ 300 ∷ [] }

abbrev tags : ItemtagArray library
tags = record { len = 1; tags = wool ∷ [] }

wool-IsItemtag : IsItemtag library wool
wool-IsItemtag = record {
  name_fits = omega arith;
  counted = refl;
  few = omega arith;
  entries_fit = (omega arith, (omega arith, tt));
  memory = refl;
}

tags-IsItemtagArray : IsItemtagArray library tags
tags-IsItemtagArray = record {
  counted = refl;
  few = omega arith;
  tags_fit = (wool-IsItemtag, tt);
  memory = refl;
}

dec_itemtag_array-enc_itemtag_array_example :
    (bytes : List ℕ) × (enc_itemtag_array library tags ≡ ok bytes)
    × (dec_itemtag_array library (bytes ++ (7 ∷ [])) ≡ ok (tags, 7 ∷ []))
dec_itemtag_array-enc_itemtag_array_example =
    dec_itemtag_array-enc_itemtag_array library tags (7 ∷ []) tags-IsItemtagArray (omega arith, tt)
