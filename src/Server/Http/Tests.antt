-- ===== src/Server/Http/Tests.antt =====
-- A chat that is posted to a server that has just started.
use infer_flow.Prelude.{ℕ, Option, none, some}
use infer_flow.Text.{Text, codes}
use infer_flow.Cache.Memory.{MemoryStore, new_memory_store}
use infer_flow.Proxy.{replied}
use infer_flow.Proxy.Client.{Net}
use infer_flow.Server.Samples.{one_memory, config, question}
use infer_flow.Server.Chat.{Method, post}
use infer_flow.Server.Routes.{HttpRequest}
use infer_flow.Server.System.{System, initial}

abbrev friendly : Net ℕ
friendly = record {
  get = λ url. replied 200 (some tt);
  post = λ url r. replied 200 (some (record { model = codes "m"; output_text = codes "Hello" }));
}

abbrev start : System MemoryStore ℕ ℕ
start = initial config new_memory_store one_memory

abbrev chat : HttpRequest ℕ
chat = record {
  path = codes "/v1/chat/completions";
  method = post;
  chat_body = some question;
  strategy_body = none;
}

abbrev same_text : Text → Text
same_text s = s

-- A multiplexer that is only asked for clean paths.
abbrev stay : Method → Text → Option Text
stay m path = none
