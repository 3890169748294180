-- ===== src/Query/Rows.antt =====
-- include/nodepp/query.h: the map that parse makes of the groups, and the text that format makes.
use nodepp.Prelude.{ℕ, List, [], ◌∷◌, ◌++◌, ◌≡◌, refl, ap, ◌∙◌, append-nil, append_assoc, sym}
use nodepp.Prelude.Ascii.{text}
use nodepp.Array
use nodepp.Regex.Format
use nodepp.Text.{Text, same}
use nodepp.Text.Join.{join}
use nodepp.Regex.Compile.{done}
use nodepp.HashMap.{Map, Pair, data_of}
use nodepp.HashMap.Assoc.{assoc_set}
use nodepp.HashMap.Keys.{text_key, text_key-IsKey}
use nodepp.HashMap.Scan.{pairs}
use nodepp.HashMap.Valid.{IsValid}
use nodepp.HashMap.Refines.{assign-IsValid, assign-assoc_set}
use nodepp.Query.{read_rows, row, rows, format, format_rows}

-- What is read, on the list of the pairs.
unfoldable pub put_rows : List Text → List (Pair Text Text) → List (Pair Text Text)
put_rows [] ps = ps
put_rows (y ∷ []) ps = ps
put_rows (y ∷ z ∷ mem) ps = put_rows mem (assoc_set same y z ps)

pub read_rows-IsValid :
    (mem : List Text) (m : Map Text Text) → IsValid text_key m → IsValid text_key (read_rows mem m)
unfolding read_rows
read_rows-IsValid [] m valid = valid
read_rows-IsValid (y ∷ []) m valid = valid
read_rows-IsValid (y ∷ z ∷ mem) m valid =
    read_rows-IsValid mem _ (assign-IsValid text_key same text_key-IsKey m valid [] y z)

-- Read into a valid map of strings, the groups of an expression set its keys one pair after the
-- other, the later value over the earlier one; a group left over at the end is not read.
pub read_rows-put_rows :
    (mem : List Text) (m : Map Text Text)
    → IsValid text_key m
    → pairs (read_rows mem m).queue ≡ put_rows mem (pairs m.queue)
unfolding read_rows put_rows
read_rows-put_rows [] m valid = refl
read_rows-put_rows (y ∷ []) m valid = refl
read_rows-put_rows (y ∷ z ∷ mem) m valid =
    read_rows-put_rows mem _ (assign-IsValid text_key same text_key-IsKey m valid [] y z)
    ∙ ap (put_rows mem) (assign-assoc_set text_key same text_key-IsKey m valid [] y z)

-- The pairs behind one, each after an ampersand.
unfoldable pub written_behind : List (Pair Text Text) → Text
written_behind [] = []
written_behind (x ∷ xs) = b'&' ∷ (x.first ++ (b'=' ∷ (x.second ++ written_behind xs)))

-- The text of a query, byte by byte: no rows and no join.
unfoldable pub written : List (Pair Text Text) → Text
unfolding written_behind
written [] = []
written (x ∷ xs) = b'?' ∷ (x.first ++ (b'=' ∷ (x.second ++ written_behind xs)))

-- One mark, and one argument for it.
format_mark :
    (sscanf : Text → ℕ)
    → sscanf (text "0") ≡ 0
    → (x : Text) → Format.format sscanf (text "?${0}") (x ∷ []) ≡ done (text "?" ++ x)
unfolding Format.format Array.slice Array.slice_from
format_mark sscanf zero x =
    ap (λ n. Format.format (λ t. n) (text "?${0}") (x ∷ [])) zero
    ∙ ap (λ y. done (b'?' ∷ y)) (append-nil x)

row-eq : (x : Pair Text Text) → row x ≡ x.first ++ (b'=' ∷ x.second)
row-eq x = append_assoc x.first (b'=' ∷ []) x.second

join-rows :
    (x : Pair Text Text) (xs : List (Pair Text Text))
    → join (text "&") (rows (x ∷ xs)) ≡ x.first ++ (b'=' ∷ (x.second ++ written_behind xs))
unfolding written_behind
join-rows x [] = row-eq x ∙ ap (λ y. x.first ++ (b'=' ∷ y)) (sym (append-nil x.second))
join-rows x (y ∷ ys) =
    ap (λ t. t ++ (b'&' ∷ join (text "&") (rows (y ∷ ys)))) (row-eq x)
    ∙ append_assoc x.first (b'=' ∷ x.second) (b'&' ∷ join (text "&") (rows (y ∷ ys)))
    ∙ ap (λ t. x.first ++ (b'=' ∷ (x.second ++ (b'&' ∷ t)))) (join-rows y ys)

-- If sscanf reads 0 in the text 0, format of a query gives nothing for an empty map, and otherwise
-- a question mark and then the bytes of each key, an equals sign and the bytes of its value, with
-- an ampersand between two pairs.
pub format-written :
    (sscanf : Text → ℕ)
    → sscanf (text "0") ≡ 0
    → (m : Map Text Text) → format sscanf m ≡ done (written (data_of m))
unfolding format format_rows written
format-written sscanf zero m = format_rows-written (data_of m)
  where
    written_first :
        (x : Pair Text Text) (xs : List (Pair Text Text))
        → done (b'?' ∷ join (text "&") (rows (x ∷ xs))) ≡ done (written (x ∷ xs))
    written_first x xs = ap (λ t. done (b'?' ∷ t)) (join-rows x xs)

    format_rows-written : (xs : List (Pair Text Text)) → format_rows sscanf xs ≡ done (written xs)
    format_rows-written [] = refl
    format_rows-written (x ∷ xs) =
        format_mark sscanf zero (join (text "&") (rows (x ∷ xs))) ∙ written_first x xs
