-- ===== src/Triton.antt =====
-- internal/triton/client.go: the client of a Triton server. `path_escape` is `url.PathEscape`; a call
-- over HTTP is one of its possible outcomes, chosen by a function of the URL and the body.
pub mod Extraction
pub mod Prompts
use infer_flow.Prelude.{
  ℕ, Bool, false, ◌&&◌, List, [], ◌∷◌, ◌++◌, Option, none, some, leb, ◌==◌, if◌then◌else◌,
}
use infer_flow.Text.{Text, codes, text_beq, is_empty, trim_space, trim_right_slash, join}
use infer_flow.Proxy.{Exchange, unreachable, replied}
use infer_flow.Llm.{Message, GenerateOpts}

pub record Client : Type 0 where
  pub base_url : Text
  pub model_name : Text
  pub max_new_tokens : ℕ
  pub timeout : ℕ

unfoldable pub new_client : Text → Text → ℕ → ℕ → Client
new_client base_url model_name timeout max_new_tokens = record {
  base_url = trim_right_slash base_url;
  model_name = model_name;
  max_new_tokens = max_new_tokens;
  timeout = timeout;
}

-- What `encoding/json` decodes into an `interface{}`; `F` is the type of `float64`.
mutual
  pub data Json (F : Type 0) : Type 0 where
    null : Json F
    boolean : Bool → Json F
    number : F → Json F
    text : Text → Json F
    array : Items F → Json F
    object : Fields F → Json F

  pub data Items (F : Type 0) : Type 0 where
    no_items : Items F
    item : Json F → Items F → Items F

  pub data Fields (F : Type 0) : Type 0 where
    no_fields : Fields F
    field : Text → Json F → Fields F → Fields F

-- `m[k]` on a decoded object.
unfoldable pub field_at : {F : Type 0} → Text → Fields F → Option (Json F)
field_at k no_fields = none
field_at k (field j v fs) = let rest = field_at k fs in if text_beq j k then some v else rest

-- The values of an input are texts or numbers.
pub data TensorData : Type 0 where
  texts : List Text → TensorData
  numbers : List ℕ → TensorData

pub record InputTensor : Type 0 where
  pub name : Text
  pub shape : List ℕ
  pub datatype : Text
  pub values : TensorData

pub record InferRequest : Type 0 where
  pub inputs : List InputTensor

pub record OutputTensor (F : Type 0) : Type 0 where
  pub name : Text
  pub values : List (Json F)
  pub shape : List ℕ

pub record InferResponse (F : Type 0) : Type 0 where
  pub outputs : List (OutputTensor F)

-- The loop of `flattenMessages`.
unfoldable pub prompt_parts : List Message → List Text
prompt_parts [] = []
prompt_parts (m ∷ ms) =
    let rest = prompt_parts ms in
    let c = trim_space m.content in
    if is_empty c then rest else (m.role ++ (codes ": " ++ c)) ∷ rest

unfoldable pub flatten_messages : List Message → Text
flatten_messages ms = join (prompt_parts ms) (10 ∷ [])

unfoldable pub build_infer_request : Text → ℕ → InferRequest
build_infer_request prompt max_new_tokens = record {
  inputs =
      record {
        name = codes "prompt";
        shape = 1 ∷ [];
        datatype = codes "BYTES";
        values = texts (prompt ∷ []);
      }
      ∷ record {
        name = codes "max_new_tokens";
        shape = 1 ∷ [];
        datatype = codes "INT32";
        values = numbers (max_new_tokens ∷ []);
      }
      ∷ [];
}

abbrev pub generated_text : Text
generated_text = codes "generated_text"

-- The `switch` on the type of the first value; `rest` is what the loop goes on to.
abbrev pub nested_text : {F : Type 0} → Option Text → Option (Json F) → Option Text
nested_text rest (some (text t)) = if is_empty t then rest else some t
nested_text rest (some v) = rest
nested_text rest none = rest

abbrev pub first_value : {F : Type 0} → Option Text → List (Json F) → Option Text
first_value rest [] = rest
first_value rest (text t ∷ vs) = if is_empty (trim_space t) then none else some t
first_value rest (object fs ∷ vs) = nested_text rest (field_at (codes "b64") fs)
first_value rest (v ∷ vs) = rest

-- `extractGeneratedText`, where `none` is an error.
unfoldable pub extract_generated_text : {F : Type 0} → List (OutputTensor F) → Option Text
extract_generated_text [] = none
extract_generated_text (output ∷ outputs) =
    let rest = extract_generated_text outputs in
    if text_beq output.name generated_text then first_value rest output.values else rest

abbrev pub is_ready : Exchange (Unit {0}) → Bool
is_ready unreachable = false
is_ready (replied status body) = status == 200

abbrev pub read_reply : {F : Type 0} → Exchange (InferResponse F) → Option Text
read_reply unreachable = none
read_reply (replied status none) = none
read_reply (replied status (some r)) =
    if leb 400 status then none else extract_generated_text r.outputs

module _ (path_escape : Text → Text) (c : Client) where
  abbrev pub model_url : Text → Text
  model_url tail =
      c.base_url ++ (codes "/v2/models/" ++ (path_escape c.model_name ++ (codes "/" ++ tail)))

  -- `HealthCheck`: the server, and then the model.
  unfoldable pub health_check : (Text → Exchange (Unit {0})) → Bool
  health_check http_get =
      is_ready (http_get (c.base_url ++ codes "/v2/health/ready"))
      && is_ready (http_get (model_url (codes "ready")))

  -- `Generate`, where `none` is an error.
  unfoldable pub generate :
      {F : Type 0}
      → (Text → InferRequest → Exchange (InferResponse F))
      → GenerateOpts F
      → Option Text
  generate http_post opts = read_reply (
      http_post (model_url (codes "infer"))
        (build_infer_request (flatten_messages opts.messages) c.max_new_tokens))
