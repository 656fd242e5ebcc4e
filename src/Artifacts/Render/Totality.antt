-- ===== src/Artifacts/Render/Totality.antt =====
-- When the rendering of a document of artifacts/render.py returns.
use ai_dev_project.Prelude.{String, ◌≡◌, refl, ◌↔◌, none, some, List, [], ◌∷◌, Each, arith}
use ai_dev_project.Python.{Result, ok, ◌>>=◌, >>=-eq-ok}
use ai_dev_project.Json.{
  Value, null, arr, obj, Items, nil, cons, Fields, get, get_or, item, to_list,
}
use ai_dev_project.Json.Laws.{item-get}
use ai_dev_project.Platform.{Platform}
use ai_dev_project.Artifacts.Render.{
  author_lines, each, shown, shown_at, meta, link_line, links_section,
}

-- The call returns.
abbrev pub Returns : {A : Type 0} → Result A → Type 0
Returns {A} m = (a : A) × (m ≡ ok a)

module _ {A B : Type 0} where
  pub returns-bind :
      {m : Result A} {f : A → Result B}
      → Returns m
      → ((a : A) → m ≡ ok a → Returns (f a))
      → Returns (m >>= f)
  returns-bind (a, e) g = let (b, h) = g a e in (b, rw e h)

  -- With the value that the first part returns.
  pub returns-bind_at :
      (m : Result A) (f : A → Result B) (a : A) → m ≡ ok a → Returns (f a) → Returns (m >>= f)
  returns-bind_at m f a e (b, h) = (b, rw e h)

-- A link that can be written: a dict with its relation and its reference.
pub record Readable (link : Value) : Type 0 where
  pub fields : Fields
  pub is_dict : link ≡ obj fields
  pub rel : Value
  pub has_rel : get fields "rel" ≡ some rel
  pub href : Value
  pub has_href : get fields "href" ≡ some href

module _ (P : Platform) where
  pub returns-shown_at :
      (d : Fields) (key : String) {v : Value}
      → get d key ≡ some v
      → Returns (shown_at P (obj d) key)
  unfolding item
  returns-shown_at d key {v} e = (shown P v, rw (e, item) refl)

  -- A value that has a key is a dict.
  shown_at-Returns :
      (v : Value) (key : String)
      → Returns (shown_at P v key)
      → (d : Fields) × (v ≡ obj d) × ((w : Value) × (get d key ≡ some w))
  shown_at-Returns (obj d) key (t, e) =
      let (w, h, _) = >>=-eq-ok (item d key) _ e in (d, refl, (w, item-get d key w h))
  shown_at-Returns _ key (t, e) = ground arith

  pub returns-meta : (d : Fields) → get d "created_by" ≡ none → Returns (meta P d)
  unfolding meta
  returns-meta d e =
      returns-bind {m = author_lines P (get_or d "created_by" null)} ([], rw (e, get_or))
        (λ author _. (_, refl))

  link_line-Readable : (link : Value) → Returns (link_line P link) ↔ Readable link
  unfolding link_line
  link_line-Readable link = (
    λ (t, e).
        let (rel, r, e1) = >>=-eq-ok (shown_at P link "rel") _ e in
        let (href, h, _) = >>=-eq-ok (shown_at P link "href") _ e1 in
        let (d, dict, (v, has_rel)) = shown_at-Returns link "rel" (rel, r) in
        let (d', dict', (w, has_href)) = shown_at-Returns link "href" (href, h) in
        record { fields = d; is_dict = dict; rel = v; has_rel = has_rel; href = w; has_href = cc },
    λ r. rw r.is_dict (
        returns-bind (returns-shown_at r.fields "rel" r.has_rel)
          λ _ _. returns-bind (returns-shown_at r.fields "href" r.has_href) λ _ _. (_, refl)),
  )

  lines_iff : (links : List Value) → Returns (each (link_line P) links) ↔ Each Readable links
  unfolding each
  lines_iff [] = (λ _. tt, λ _. ([], refl))
  lines_iff (link ∷ links) = (
    λ (t, e).
        let (line, l, e1) = >>=-eq-ok (link_line P link) _ e in
        let (lines, ls, _) = >>=-eq-ok (each (link_line P) links) _ e1 in
        ((link_line-Readable link).0 (line, l), (lines_iff links).0 (lines, ls)),
    λ (r, all).
        returns-bind ((link_line-Readable link).1 r)
          λ _ _. returns-bind ((lines_iff links).1 all) λ _ _. (_, refl),
  )

  -- What `document.get("links")` is after `if links: document["links"] = links`.
  abbrev pub links_value : Items → Value
  links_value nil = null
  links_value links = arr links

  pub section_iff :
      (links : Items)
      → Returns (links_section P (links_value links)) ↔ Each Readable (to_list links)
  unfolding links_section
  section_iff nil = (λ _. tt, λ _. ("", refl))
  section_iff (cons link links) = (
    λ (t, e). (lines_iff (link ∷ to_list links)).0 (
        let (lines, ls, _) = >>=-eq-ok (each (link_line P) (link ∷ to_list links)) _ e in
        (lines, ls)),
    λ all. returns-bind ((lines_iff (link ∷ to_list links)).1 all) λ _ _. (_, refl),
  )
