-- ===== src/Registry/Index/Reloading.antt =====
-- registry/src/index.rs: an index that is loaded again is the one that was written.
use mathlib.Core.Path.{subst}
use mathlib.Core.List.{append_assoc, append-nil}
use install_scope.Common.{
  ℕ, ◌+◌, ◌≡◌, ◌≢◌, refl, sym, ap, ◌∙◌, ◌⊎◌, inl, inr, true, false, Option, none, some, List, [],
  ◌∷◌, ◌++◌, arith,
}
use install_scope.Common.Text.{Text, trim}
use install_scope.Common.Text.Lines.{lines, IsLine, lines-IsLine}
use install_scope.Registry.Errors.{RegistryError}
use install_scope.Registry.Index.{
  Entry, Index, Files, with_entry, load_lines, load, from_file, indexed, append, appended,
  append_encoded,
}

module _ {S : Type 0} (files : Files S) where
  -- The file holds the text; no file stands for an empty one.
  abbrev pub HoldsText : S → Text → Text → Type 0
  HoldsText s path t = (files.read s path ≡ some (inr t)) ⊎ ((files.read s path ≡ none) × (t ≡ []))

  -- An append that answers no error adds the line and its end to what the file holds.
  abbrev pub Keeps : Type 0
  Keeps =
      (s : S) (path line t : Text)
      → HoldsText s path t
      → (files.append_line s path line).1 ≡ none
      → HoldsText (files.append_line s path line).0 path (t ++ (line ++ 10 ∷ []))

not_nil : (s : Text) → s ≢ [] → (elim s [ [] ↦ true | _ ∷ _ ↦ false ]) ≡ false
not_nil [] h = absurd (h refl)
not_nil (c ∷ s) h = refl

line_break-ne-nil : (line rest : Text) → line ++ 10 ∷ rest ≢ []
line_break-ne-nil [] rest h = ground arith
line_break-ne-nil (c ∷ line) rest h = ground arith

module _ {S : Type 0} (files : Files S) (decode : Text → Text ⊎ Entry)
    (encode : Entry → Text ⊎ Text)
    (codec : (e : Entry) (line : Text) → encode e ≡ inr line → IsLine decode e line)
    (keeps : Keeps files) where
  -- A text of one line for each entry.
  abbrev Written : List Entry → Text → Type 0
  Written [] t = t ≡ []
  Written (e ∷ es) t =
      (line : Text) × (rest : Text) × (encode e ≡ inr line)
      × (t ≡ line ++ 10 ∷ rest)
      × Written es rest

  Written-snoc :
      (es : List Entry) (e : Entry) (t line : Text)
      → Written es t
      → encode e ≡ inr line
      → Written (es ++ e ∷ []) (t ++ (line ++ 10 ∷ []))
  Written-snoc [] e t line w h = (line, [], h, ap (λ u. u ++ (line ++ 10 ∷ [])) w, refl)
  Written-snoc (x ∷ es) e t line (first, rest, k, eq, w) h = (
    first,
    rest ++ (line ++ 10 ∷ []),
    k,
    ap (λ u. u ++ (line ++ 10 ∷ [])) eq ∙ append_assoc first (10 ∷ rest) (line ++ 10 ∷ []),
    Written-snoc es e rest line w h,
  )

  load_lines-Written :
      (es : List Entry) (t path : Text) (n : ℕ)
      → Written es t
      → load_lines files decode encode path n (lines t) ≡ inr es
  unfolding load_lines lines
  load_lines-Written [] t path n w = ap (λ u. load_lines files decode encode path n (lines u)) w
  load_lines-Written (e ∷ es) t path n (line, rest, k, eq, w) =
      let c = codec e line k in
      ap (load_lines files decode encode path n) (ap lines eq ∙ lines-IsLine decode e line rest c)
      ∙ rw (not_nil (trim line) c.visible, c.read_back)
          (ap (with_entry files decode encode e) (load_lines-Written es rest path (n + 1) w))

  abbrev Appended : Type 0
  Appended = S × Index × Option RegistryError

  abbrev go_on : (S → Index → Appended) → Appended → Appended
  go_on next (s, index, none) = next s index
  go_on next (s, index, some error) = (s, index, some error)

  -- Appending one entry after the other, up to the first error.
  abbrev pub append_all : List Entry → S → Index → Appended
  append_all [] s index = (s, index, none)
  append_all (e ∷ es) s index = go_on (append_all es) (append files decode encode s index e)

  go_on_clean : (next : S → Index → Appended) (a : Appended) → (go_on next a).2 ≡ none → a.2 ≡ none
  go_on_clean next (s, index, none) ok = refl
  go_on_clean next (s, index, some error) ok = ok

  go_on_lem :
      (next : S → Index → Appended) (a : Appended) → a.2 ≡ none → go_on next a ≡ next a.0 a.1
  go_on_lem next (s, index, none) ok = refl
  go_on_lem next (s, index, some error) ok = absurd (ground arith)

  load-Written :
      (s : S) (path t : Text) (es : List Entry)
      → HoldsText files s path t
      → Written es t
      → load files decode encode s path ≡ inr (record { entries = es; path = path })
  unfolding load
  load-Written s path t es (inl e) w =
      ap (from_file files decode encode path) e
      ∙ ap (indexed files decode encode path) (load_lines-Written es t path 0 w)
  load-Written s path t [] (inr (e, _)) w = ap (from_file files decode encode path) e
  load-Written s path t (x ∷ es) (inr (_, e)) (line, rest, _, eq, _) =
      absurd (line_break-ne-nil line rest (sym eq ∙ e))

  appended_lem :
      (index : Index) (e : Entry) (answer : S × Option RegistryError)
      → (appended files decode encode index e answer).2 ≡ none
      → (answer.1 ≡ none)
        × ((appended files decode encode index e answer).0 ≡ answer.0)
        × ((appended files decode encode index e answer).1
            ≡ record index { entries = index.entries ++ e ∷ [] })
  appended_lem index e (s, none) ok = (refl, refl, refl)
  appended_lem index e (s, some error) ok = absurd (ground arith)

  append-Written :
      (s : S) (index : Index) (e : Entry) (t : Text)
      → HoldsText files s index.path t
      → Written index.entries t
      → (append files decode encode s index e).2 ≡ none
      → let (s', index', _) = append files decode encode s index e in
        (index' ≡ record index { entries = index.entries ++ e ∷ [] })
        × ((t' : Text) × HoldsText files s' index.path t' × Written (index.entries ++ e ∷ []) t')
  unfolding append
  append-Written s index e t h w ok =
      elim (encode e)
          as (λ r.
            (encode e ≡ r)
            → (append_encoded files decode encode s index e r).2 ≡ none
            → let (s', index', _) = append_encoded files decode encode s index e r in
              (index' ≡ record index { entries = index.entries ++ e ∷ [] })
              × ((t' : Text) × HoldsText files s' index.path t'
                  × Written (index.entries ++ e ∷ []) t')) [
                    | inl source ↦ λ _ bad. absurd (ground arith)
                    | inr line ↦ λ k fine.
                        let answer = files.append_line s index.path line in
                        let (clean, state, grown) = appended_lem index e answer fine in
                        (
                          grown,
                          (
                            t ++ (line ++ 10 ∷ []),
                            subst (λ x. HoldsText files x index.path (t ++ (line ++ 10 ∷ [])))
                                (sym state) (keeps s index.path line t h clean),
                            Written-snoc index.entries e t line w k,
                          ),
                        )
                  ]
        refl ok

  load-append_all_from :
      (es : List Entry) (s : S) (index : Index) (t : Text)
      → HoldsText files s index.path t
      → Written index.entries t
      → (append_all es s index).2 ≡ none
      → load files decode encode (append_all es s index).0 index.path
        ≡ inr (record { entries = index.entries ++ es; path = index.path })
  load-append_all_from [] s index t h w ok =
      load-Written s index.path t index.entries h w
      ∙ ap (λ es. inr (record { entries = es; path = index.path })) (sym (append-nil index.entries))
  load-append_all_from (e ∷ es) s index t h w ok =
      let step = append files decode encode s index e in
      let clean = go_on_clean (append_all es) step ok in
      let (grown, (t', h', w')) = append-Written s index e t h w clean in
      let index' : Index = record index { entries = index.entries ++ e ∷ [] } in
      let here = go_on_lem (append_all es) step clean ∙ ap (append_all es step.0) grown in
      ap (λ a. load files decode encode a.0 index.path) here
      ∙ load-append_all_from es step.0 index' t' h' w' (ap (λ a. a.2) (sym here) ∙ ok)
      ∙ ap (λ xs. inr (record { entries = xs; path = index.path }))
          (append_assoc index.entries (e ∷ []) es)

  -- For files that keep what is appended and an encoding of entries as visible lines that read back:
  -- entries that are appended one after the other to a new index, without an error, are what loading
  -- gives, all of them and in their order.
  pub load-append_all :
      (s : S) (path : Text) (es : List Entry)
      → files.read s path ≡ none
      → (append_all es s (record { entries = []; path = path })).2 ≡ none
      → load files decode encode (append_all es s (record { entries = []; path = path })).0 path
        ≡ inr (record { entries = es; path = path })
  load-append_all s path es missing ok =
      load-append_all_from es s (record { entries = []; path = path }) [] (inr (missing, refl)) refl
        ok
