-- ===== src/Regex/Ops/Tests.antt =====
-- Runs of the expressions, from the source of an expression to its matches.
use nodepp.Prelude.{◌∷◌, ◌≡◌, refl, true, false, none, some, [], arith}
use nodepp.Prelude.Ascii.{text}
use nodepp.Range.{slice_range, splice_range}
use nodepp.Array
use nodepp.Regex.{node, nil, cons}
use nodepp.Regex.View.{whole}
use nodepp.Regex.Weight.{weight}
use nodepp.Regex.Compile.{done, fault, stuck, compile, make, Pattern, literal}
use nodepp.Regex.Compile.Refused.{compile-Closing}
use nodepp.Regex.Match.{match_item}
use nodepp.Regex.Match.Total.{Ends, match_item-Ends}
use nodepp.Regex.Search.{search, search_all}
use nodepp.Regex.Search.Found.{Finds, FindsAll, search-Finds, search_all-FindsAll}
use nodepp.Regex.Search.Plain.{FindsText, compile-FindsText}
use nodepp.Regex.Once
use nodepp.Regex.Once.{test, split, match_all, replace_all, get_memory}
use nodepp.Regex.Ops
use nodepp.Regex.Ops.Split.{Rebuilds, split-weave-match_all}
use nodepp.Regex.Ops.Replace.{Joins, replace_all-join-split}

groups_run :
    get_memory (text "xxabcbdx") (text "a(b|c)+d") false
    ≡ done (text "b" ∷ text "c" ∷ text "b" ∷ [])
unfolding get_memory Array.slice slice_range
groups_run = refl

search_run : Once.search (text "xxabcbdx") (text "a(b|c)+d") false ≡ done (some (2, 7))
unfolding Once.search Array.slice
search_run = refl

split_run :
    split (text "/usr//lib/x") (text "/+|\\\\+") false
    ≡ done ([] ∷ text "usr" ∷ text "lib" ∷ text "x" ∷ [])
unfolding split Array.slice Array.slice_from slice_range
split_run = refl

-- The `.` matches the NUL behind the value, and the `b` is not looked at.
past_end_run : test (text "a") (text "a.b") false ≡ done true
unfolding test
past_end_run = refl

-- A negated set with nothing in it matches no byte.
empty_set_run : test (text "a") (text "[^]") false ≡ done false
unfolding test
empty_set_run = refl

negated_set_run : test (text "ab") (text "[^a]") false ≡ done true
unfolding test
negated_set_run = refl

repeat_run :
    replace_all (text "x%abz%ca") (text "%[a-c]{2}") (text "--") false ≡ done (text "x--z--")
unfolding replace_all Array.splice_with splice_range slice_range
repeat_run = refl

-- An empty alternative is the null string, of which the source reads the first byte.
empty_alternative_run : test (text "a") (text "a|") false ≡ fault
unfolding test
empty_alternative_run = refl

-- `a|b+`, as it is compiled.
abbrev sample : Pattern
sample = record {
  queue =
      node 0x09 0x00
        (cons (node 0x09 0x00 (cons (literal b'a') nil) none) (
          cons
            (node 0x09 0x00
              (cons (node 0x00 b'b' nil (some (record { least = 1; most = none }))) nil) none)
            nil))
        none;
  icase = false;
}

sample_run : make 20 (text "a|b+") false ≡ done sample
unfolding make
sample_run = refl

match_item-Ends_example :
    Ends (whole (text "xbb")) 1 (match_item 99 false (whole (text "xbb")) 1 (sample.queue) [])
unfolding weight
match_item-Ends_example =
    match_item-Ends 99 false (whole (text "xbb")) 1 (sample.queue) [] (omega arith) (omega arith)
      (omega arith)

search-Finds_example : Finds 3 1 (search sample (whole (text "xbb")) 1 [])
search-Finds_example = search-Finds sample (whole (text "xbb")) 1 [] (omega arith)

search_all-FindsAll_example : FindsAll 3 (search_all sample (whole (text "xbb")) [])
search_all-FindsAll_example = search_all-FindsAll sample (whole (text "xbb")) [] (omega arith)

split-weave-match_all_example :
    Rebuilds
      (text "xbbay")
      (Ops.split sample (text "xbbay") [])
      (Ops.match_all sample (text "xbbay") [])
split-weave-match_all_example = split-weave-match_all sample (text "xbbay") [] (omega arith)

replace_all-join-split_example :
    Joins
      (text "--")
      (Ops.replace_all sample (text "xbbay") (text "--") [])
      (Ops.split sample (text "xbbay") [])
replace_all-join-split_example =
    replace_all-join-split sample (text "xbbay") (text "--") [] (omega arith)

compile-FindsText_example :
    FindsText (text "ab") (text "xxabc") 1 [] (compile 40 (whole (text "ab")))
compile-FindsText_example =
    compile-FindsText 40 b'a' (text "b") (text "xxabc") 1 [] (ground arith) (ground arith)
      (omega arith)

compile-Closing_example : compile 100 (whole (text ")b")) ≡ stuck
compile-Closing_example = compile-Closing 100 b')' (text "b") (ground arith) (ground arith)
