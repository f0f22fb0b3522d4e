-- ===== src/Server/Http/Cases.antt =====
-- What the answers over HTTP are told apart by.
use mathlib.Core.List.{mem-cons_self, mem-cons_of_mem}
use infer_flow.Prelude.{
  ℕ, ◌≡◌, ◌≢◌, refl, ap, ◌⊎◌, inl, inr, true, false, List, [], ◌∷◌, Mem, All, Option, none, some,
  Bool-cases,
}
use infer_flow.Proxy.{ChatCompletionRequest, ChatCompletionResponse}
use infer_flow.Proxy.Client.{Net}
use infer_flow.Router.Heap.{Heap, is_healthy, any_healthy}
use infer_flow.Server.State.{Server}
use infer_flow.Server.Chat.{Method, get, post, put, options, other, Response}
use infer_flow.Server.Routes.{is_options}
use infer_flow.Server.Handle.Outcomes.{
  Handled, Forwarded, wrong_method, undecodable, invalid, unready, forwarded,
}

-- A healthy backend of the list, or none.
pub any_healthy-cases :
    (h : Heap) (bs : List ℕ)
    → ((any_healthy h bs ≡ true) × ((b : ℕ) × Mem b bs × (is_healthy h b ≡ true)))
      ⊎ ((any_healthy h bs ≡ false) × All (λ b. is_healthy h b ≡ false) bs)
unfolding any_healthy
any_healthy-cases h [] = inr (refl, tt)
any_healthy-cases h (b ∷ bs) = elim (Bool-cases (is_healthy h b)) [
  | inl up ↦ inl (rw up refl, (b, mem-cons_self, up))
  | inr down ↦ elim (any_healthy-cases h bs) [
    | inl (e, (k, m, up)) ↦ inl (rw (down, e) refl, (k, mem-cons_of_mem b m, up))
    | inr (e, all_down) ↦ inr (rw (down, e) refl, (down, all_down))
  ]
]

-- The handler of a chat always writes a response.
pub Handled-some :
    {S R F : Type 0} (net : Net F) (unix : ℕ) (bs : List ℕ) (s : Server S R F) (m : Method)
    (body : Option (ChatCompletionRequest F)) (s' : Server S R F) (reply : Option Response)
    → Handled net unix bs s m body s' reply
    → (response : Response) × (reply ≡ some response)
Handled-some net unix bs s m body s' reply (wrong_method n same e) = (_, e)
Handled-some net unix bs s m body s' reply (undecodable p n same e) = (_, e)
Handled-some net unix bs s m body s' reply (invalid r error p sent bad same e) = (_, e)
Handled-some net unix bs s m body s' reply (unready r p sent ok down same e) = (_, e)
Handled-some net unix bs s m body s' reply (forwarded r b hit p sent ok up member well f) =
    replied _ f
  where
    replied :
        (answer : Option ChatCompletionResponse)
        → Forwarded s b hit s' reply answer
        → (response : Response) × (reply ≡ some response)
    replied none (e, down, counted) = (_, e)
    replied (some c) (e, same, errors) = (_, e)

pub options_of : (m : Method) → is_options m ≡ true → m ≡ options
options_of get e = cc
options_of post e = cc
options_of put e = cc
options_of options e = refl
options_of other e = cc

pub not_options : (m : Method) → is_options m ≡ false → m ≢ options
not_options m e same = cc (e, ap is_options same)
