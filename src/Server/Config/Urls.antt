-- ===== src/Server/Config/Urls.antt =====
-- The list of URLs in the environment.
use infer_flow.Prelude.{
  ◌≡◌, refl, ap, ◌∙◌, true, List, [], ◌∷◌, ◌++◌, map, All, All-append, arith, if◌then◌else◌,
}
use infer_flow.Text.{Text, is_empty, is_space, trim_space, trim_left, trim_right, split, join}
use infer_flow.Text.Split.{IsFree, split_free, split-append}
use infer_flow.Text.Trim.{Starts, Stops, trim_space-append}
use infer_flow.Server.Config.{trim_parts, split_and_trim}

-- A URL as it stands in a list, with what is around it.
pub record Padded : Type 0 where
  pub before : Text
  pub url : Text
  pub after : Text

abbrev pub padded_text : Padded → Text
padded_text p = p.before ++ (p.url ++ p.after)

-- Only blanks are around it; it has none at its ends, and no comma. It may be empty.
pub record IsPadded (p : Padded) : Type 0 where
  pub before : All (λ c. is_space c ≡ true) p.before
  pub after : All (λ c. is_space c ≡ true) p.after
  pub starts : Starts is_space p.url
  pub stops : Stops is_space p.url
  pub free : IsFree b',' p.url

abbrev pub keep : Text → List Text → List Text
keep [] urls = urls
keep (c ∷ s) urls = (c ∷ s) ∷ urls

-- The URLs that are not empty.
unfoldable pub urls_of : List Padded → List Text
urls_of [] = []
urls_of (p ∷ ps) = keep p.url (urls_of ps)

blank-IsFree : (s : Text) → All (λ c. is_space c ≡ true) s → IsFree b',' s
unfolding is_space
blank-IsFree [] k = tt
blank-IsFree (c ∷ s) (e, k) = (ground (arith, e), blank-IsFree s k)

padded_text-IsFree : (p : Padded) → IsPadded p → IsFree b',' (padded_text p)
padded_text-IsFree p k =
    All-append _ p.before (p.url ++ p.after) (blank-IsFree p.before k.before)
      (All-append _ p.url p.after k.free (blank-IsFree p.after k.after))

trim_parts-cons :
    (p : Padded) (ps : List Padded) (parts : List Text)
    → IsPadded p
    → trim_parts parts ≡ urls_of ps
    → trim_parts (padded_text p ∷ parts) ≡ urls_of (p ∷ ps)
unfolding trim_parts urls_of
trim_parts-cons p ps parts k ih =
    rw (trim_space-append p.before p.url p.after k.before k.starts k.stops k.after, ih)
      (kept p.url (urls_of ps))
  where
    kept : (s : Text) (urls : List Text) → (if is_empty s then urls else s ∷ urls) ≡ keep s urls
    kept [] urls = refl
    kept (c ∷ s) urls = refl

-- A list of URLs, with any blanks around them and separated by commas, is read as the URLs without the
-- blanks, in their order and without the empty ones, as long as no URL has a comma in it or blanks at
-- its ends.
pub split_and_trim-join :
    (ps : List Padded)
    → All IsPadded ps
    → split_and_trim (join (map padded_text ps) (b',' ∷ [])) ≡ urls_of ps
unfolding split_and_trim join
split_and_trim-join [] k = unfold split trim_parts urls_of trim_space trim_left trim_right in refl
split_and_trim-join (p ∷ []) (k, ks) =
    ap trim_parts (split_free b',' (padded_text p) (padded_text-IsFree p k))
    ∙ trim_parts-cons p [] [] k (unfold trim_parts urls_of in refl)
split_and_trim-join (p ∷ q ∷ ps) (k, ks) =
    let rest = join (map padded_text (q ∷ ps)) (b',' ∷ []) in
    ap trim_parts (split-append b',' (padded_text p) rest (padded_text-IsFree p k))
    ∙ trim_parts-cons p (q ∷ ps) (split b',' rest) k (split_and_trim-join (q ∷ ps) ks)
