-- ===== src/Convert/Tests.antt =====
-- A file of two entries: converting it and looking words up.
use network_system_programmi.Prelude.{true, [], ◌∷◌, some, ◌≡◌, refl, arith}
use network_system_programmi.Prelude.Bytes.{Bytes, codes, cstr}
use network_system_programmi.Dict.{found, notfound}
use network_system_programmi.Convert.{
  exits, convert, convert_loop, read_file, word_in, append_text, close_text, read_record, read_text,
}
use network_system_programmi.Libc.{read_line, fgets}
use network_system_programmi.Convert.Records.{Entry, Fits, source}
use network_system_programmi.Convert.Copies.{written, convert-source}
use network_system_programmi.Convert.Lookup.{starts_with, gives, lookup}
use network_system_programmi.Convert.Reads.{Avoids, lines_of}
use network_system_programmi.Convert.Found.{convert-lookup}

abbrev ant : Entry
ant = record { word = codes "ant"; lines = codes "six legs" ∷ codes "no wings" ∷ [] }

abbrev bee : Entry
bee = record { word = codes "bee"; lines = codes "wings" ∷ [] }

ant-Fits : Fits ant
ant-Fits = record {
  word_plain = ground arith;
  word_fits = omega arith;
  lines_plain = ground arith;
  text_fits = omega arith;
}

bee-Fits : Fits bee
bee-Fits = record {
  word_plain = ground arith;
  word_fits = omega arith;
  lines_plain = ground arith;
  text_fits = omega arith;
}

convert-source_example :
    convert (some (source (ant ∷ bee ∷ []))) true ≡ exits 0 (written (ant ∷ bee ∷ []))
convert-source_example = convert-source ant (bee ∷ []) (ant-Fits, (bee-Fits, tt))

-- The text of the file that is converted.
source_text : source (ant ∷ bee ∷ []) ≡ codes "ant\nsix legs\nno wings\n\nbee\nwings\n"
source_text = refl

bee_first : starts_with (codes "bee\n") (codes "be") ≡ true
unfolding starts_with
bee_first = refl

ant_before : Avoids (codes "be") (lines_of (ant ∷ []))
unfolding starts_with
ant_before = (refl, (refl, (refl, (refl, tt))))

no_cat : Avoids (codes "cat") (lines_of (ant ∷ bee ∷ []))
unfolding starts_with
no_cat = (refl, (refl, (refl, (refl, (refl, (refl, (refl, tt)))))))

convert-lookup_example :
    (file : Bytes) × (convert (some (source (ant ∷ bee ∷ []))) true ≡ exits 0 file)
    × (lookup file (codes "be") ≡ gives found (codes "wings"))
    × (lookup file (codes "cat") ≡ gives notfound [])
convert-lookup_example =
    convert-lookup (codes "be") (ant ∷ []) [] bee (codes "wings") [] (codes "cat")
      (ant-Fits, (bee-Fits, tt)) refl ant_before bee_first no_cat

-- A blank line at the end of the file makes it end with status 1, though all is written.
trailing : convert (some (codes "ant\nsix\n\n")) true ≡ exits 1 (codes "ant\nsix\n\n")
unfolding convert convert_loop read_file fgets read_line read_record word_in read_text append_text
    close_text cstr
trailing = refl
