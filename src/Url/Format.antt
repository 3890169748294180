-- ===== src/Url/Format.antt =====
-- include/nodepp/url.h: `format` of what `parse` gives, and `unnormalize` of some bytes.
use nodepp.Prelude.{
  ℕ, zero, suc, ◌+◌, ◌*◌, ◌≡◌, refl, ap, ap₂, ◌∙◌, sym, subst, Bool, true, false, ◌&&◌, [], ◌∷◌,
  ◌++◌, length, if◌then◌else◌,
}
use nodepp.Prelude.Int.{pos}
use nodepp.Prelude.Ascii.{text}
use nodepp.Array
use nodepp.Encoder.Hex.{atob}
use nodepp.Text.{Text}
use nodepp.Text.Join.{join}
use nodepp.Regex.{Regex}
use nodepp.Regex.Compile.{Outcome, done, refused, fault, stuck, ◌>>=◌}
use nodepp.Regex.Compile.Refused.{Closing, compile-Closing}
use nodepp.Regex.Ops
use nodepp.Regex.Once
use nodepp.Regex.Once.{use_of, compiled}
use nodepp.Url.{
  Url, no_url, test, match, reg_of, is_valid, path, path_parts, or_slash, parse, parse_valid,
  format_text, ip_family, hostname, rawname, protocol, search, origin, port, host, hash, user, pass,
  auth,
}
use nodepp.Url.Escapes.{special, unnormalize}

-- Of a run that ends with a result, the result has the property.
abbrev Always : {A : Type 0} → (A → Type 0) → Outcome A → Type 0
Always P (done a) = P a
Always P refused = Unit
Always P fault = Unit
Always P stuck = Unit

module _ {A B : Type 0} (P : A → Type 0) (Q : B → Type 0) where
  Always-bind :
      (m : Outcome A) (f : A → Outcome B)
      → Always P m
      → ((a : A) → P a → Always Q (f a))
      → Always Q (m >>= f)
  Always-bind (done a) f h k = k a h
  Always-bind refused f h k = tt
  Always-bind fault f h k = tt
  Always-bind stuck f h k = tt

Always-any : {A : Type 0} (m : Outcome A) → Always (λ (a : A). Unit) m
Always-any (done a) = tt
Always-any refused = tt
Always-any fault = tt
Always-any stuck = tt

module _ {A B : Type 0} (Q : B → Type 0) where
  after : (m : Outcome A) (f : A → Outcome B) → ((a : A) → Always Q (f a)) → Always Q (m >>= f)
  after m f k = Always-bind (λ a. Unit) Q m f (Always-any m) (λ a u. k a)

abbrev IsFilled : Text → Type 0
IsFilled [] = ⊥
IsFilled (c ∷ cs) = Unit

or_slash-IsFilled : (xs : Text) → IsFilled (or_slash xs)
or_slash-IsFilled [] = tt
or_slash-IsFilled (c ∷ cs) = tt

choose-Always :
    (b : Bool) (x y : Outcome Text)
    → Always IsFilled x
    → Always IsFilled y
    → Always IsFilled (if b then x else y)
choose-Always true x y p q = p
choose-Always false x y p q = q

path_parts-IsFilled : (url : Text) → Always IsFilled (path_parts url)
unfolding path_parts
path_parts-IsFilled url =
    after IsFilled (use_of (reg_of "/[^/?#]+" false) λ p. Ops.match_all p url)
      (λ all. done (or_slash (join [] (Array.slice all (pos 1) (pos (Array.size all))))))
      (λ all. or_slash-IsFilled (join [] (Array.slice all (pos 1) (pos (Array.size all)))))

path-IsFilled : (url : Text) → Always IsFilled (path url)
unfolding path
path-IsFilled url = after IsFilled (is_valid url) _ (λ valid.
    after IsFilled (test (reg_of "/[^/?#]+" false) url) _ (λ found.
      choose-Always (valid && found) (path_parts url) (done (text "/")) (path_parts-IsFilled url)
        tt))

abbrev IsParsed : Text → Url → Type 0
IsParsed url u = (u.href ≡ url) × (u.path ≡ u.pathname ++ u.search) × IsFilled u.pathname

parse_valid-IsParsed : (url : Text) → Always (IsParsed url) (parse_valid url)
unfolding parse_valid
parse_valid-IsParsed url = after (IsParsed url) (ip_family url) _ λ family.
    after (IsParsed url) (hostname url) _ λ hostname'.
      after (IsParsed url) (rawname url) _ λ rawname'.
        after (IsParsed url) (protocol url) _ λ protocol'.
          after (IsParsed url) (search url) _ λ search'.
            after (IsParsed url) (origin url) _ λ origin'.
              Always-bind IsFilled (IsParsed url) (path url) _ (path-IsFilled url)
                λ pathname filled. after (IsParsed url) (port url) _ λ port'.
                  after (IsParsed url) (host url) _ λ host'.
                    after (IsParsed url) (hash url) _ λ hash'.
                      after (IsParsed url) (user url) _ λ user'.
                        after (IsParsed url) (pass url) _
                          λ pass'. after (IsParsed url) (auth url) _ λ auth'. (refl, refl, filled)

or_else-filled : (t d : Text) → IsFilled t → (elim t [ [] ↦ d | c ∷ cs ↦ c ∷ cs ]) ≡ t
or_else-filled [] d h = absurd h
or_else-filled (c ∷ cs) d h = refl

append-IsFilled : (xs ys : Text) → IsFilled xs → IsFilled (xs ++ ys)
append-IsFilled [] ys h = absurd h
append-IsFilled (x ∷ xs) ys h = tt

IsParsed-text :
    (c : ℕ) (cs : Text) (u : Url)
    → IsParsed (c ∷ cs) u
    → format_text u ≡ (c ∷ cs) ++ (u.path ++ (u.search ++ u.hash))
unfolding format_text
IsParsed-text c cs u h =
    ap₂ (λ a b. a ++ (b ++ (u.search ++ u.hash)))
      (or_else-filled (u.href) _ (subst IsFilled (sym h.0) tt) ∙ h.0)
      (or_else-filled (u.path) (u.pathname)
        (subst IsFilled (sym h.1) (append-IsFilled (u.pathname) (u.search) h.2)))

parse-IsParsed : (url : Text) → is_valid url ≡ done true → Always (IsParsed url) (parse url)
unfolding parse
parse-IsParsed url h = ap_valid (is_valid url) h
  where
    ap_valid :
        (m : Outcome Bool)
        → m ≡ done true
        → Always (IsParsed url) (m >>= λ valid. if valid then parse_valid url else done no_url)
    ap_valid m e = rw e (parse_valid-IsParsed url)

-- For a valid URL that parse gives a record of, the text that format puts together from the record
-- is the URL followed once more by its path, its query and its fragment.
pub format_text-parse :
    (c : ℕ) (cs : Text) (u : Url)
    → is_valid (c ∷ cs) ≡ done true
    → parse (c ∷ cs) ≡ done u
    → format_text u ≡ (c ∷ cs) ++ (u.path ++ (u.search ++ u.hash))
format_text-parse c cs u h e =
    IsParsed-text c cs u (subst (Always (IsParsed (c ∷ cs))) e (parse-IsParsed (c ∷ cs) h))

module _ {A B : Type 0} (m : Outcome A) (f : A → Outcome B) where
  bind-done : (a : A) → m ≡ done a → (m >>= f) ≡ f a
  bind-done a e = ap (λ o. o >>= f) e

  bind-stuck : m ≡ stuck → (m >>= f) ≡ stuck
  bind-stuck e = ap (λ o. o >>= f) e

replace_all-Closing :
    (res : Text) (c : ℕ) (rep : Text) → Closing c → Once.replace_all res (c ∷ []) rep false ≡ stuck
unfolding Once.replace_all
replace_all-Closing res c rep h =
    ap
      (λ (o : Outcome Regex).
        use_of (o >>= λ r. done (record { queue = r; icase = false }))
          λ p. Ops.replace_all p res rep)
      (compile-Closing (8 * length (c ∷ []) + 16) c [] h tt)

-- unnormalize of a text in which the byte that its expression finds is ], } or ) never ends,
-- however much fuel there is.
pub unnormalize-Closing :
    (f : ℕ) (res : Text) (c : ℕ)
    → test special res ≡ done true
    → match special res ≡ done (c ∷ [])
    → Closing c
    → unnormalize f res ≡ stuck
unfolding unnormalize
unnormalize-Closing zero res c t m h = refl
unnormalize-Closing (suc f) res c t m h =
    bind-done (test special res) _ true t
    ∙ bind-done (match special res) _ (c ∷ []) m
    ∙ bind-stuck (Once.replace_all res (c ∷ []) (text "%" ++ atob 8 c) false) _
        (replace_all-Closing res c (text "%" ++ atob 8 c) h)
