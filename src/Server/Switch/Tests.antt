-- ===== src/Server/Switch/Tests.antt =====
-- The strategy is switched, in another spelling than the server's.
use infer_flow.Prelude.{ℕ, none, some}
use infer_flow.Text.{codes}
use infer_flow.Cache.Memory.{MemoryStore, new_memory_store}
use infer_flow.Server.Samples.{die, one_memory, config, keep}
use infer_flow.Server.Names.{normalize_strategy_name}
use infer_flow.Server.State.{Server, new_server}
use infer_flow.Server.Handlers.{handle_strategy}
use infer_flow.Server.Chat.{get, put}
use infer_flow.Server.Switch.{HasPut, handle_strategy-HasPut}

abbrev fresh_server : Server MemoryStore ℕ ℕ
fresh_server = new_server config new_memory_store one_memory

handle_strategy-HasPut_example :
    let (s', response) =
      handle_strategy die keep fresh_server put (some (codes " Least-Pending")) in
    HasPut fresh_server
      (normalize_strategy_name keep (codes " Least-Pending"))
      s'
      response
      (handle_strategy die keep s' get none).1
handle_strategy-HasPut_example =
    handle_strategy-HasPut die keep fresh_server (codes " Least-Pending") none
