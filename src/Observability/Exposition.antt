-- ===== src/Observability/Exposition.antt =====
-- The text of `MetricsRegistry.render`, and the routes of the metrics server.
use event_time_mcdm_agent.Common.{
  ℕ, List, [], ◌∷◌, Option, none, some, String, if◌then◌else◌, ◌==◌, string_eq, Result, ok, ◌>>=◌,
}
use Prim.Native.String.{◌++◌ as ◌+++◌}
use event_time_mcdm_agent.Float.{Float}
use event_time_mcdm_agent.Observability.Registry.{MetricsRegistry}
use event_time_mcdm_agent.Observability.Render.{
  Builtins, Line, help_line, type_line, count_line, sum_line, quantile_line, sample_line,
  render_lines,
}

-- The answer of the server; Content-Length is left out.
pub record Response : Type 0 where
  pub status : ℕ
  pub content_type : Option String
  pub body : String

-- ",".join(f'{k}="{v}"' for k, v in key[1:])
unfoldable pub labels_part : List (String × String) → String
labels_part [] = ""
labels_part ((k, v) ∷ []) = k +++ "=\"" +++ v +++ "\""
labels_part ((k, v) ∷ l ∷ ls) = k +++ "=\"" +++ v +++ "\"," +++ labels_part (l ∷ ls)

abbrev pub label_prefix : List (String × String) → String
label_prefix labels =
    let part = labels_part labels in if part == "" then "" else "{" +++ part +++ "}"

abbrev pub with_comma : String → String
with_comma part = if part == "" then "" else part +++ ","

module _ {F : Type 0} ⦃f : Float F⦄ where
  unfoldable pub text_of : Builtins F → Line F → String
  text_of b (help_line name help) = "# HELP " +++ name +++ " " +++ help
  text_of b (type_line name kind) = "# TYPE " +++ name +++ " " +++ kind
  text_of b (count_line (name, labels) n) =
      name +++ "_count" +++ label_prefix labels +++ " " +++ b.str_int n
  text_of b (sum_line (name, labels) x) =
      name +++ "_sum" +++ label_prefix labels +++ " " +++ b.str_float x
  text_of b (quantile_line (name, labels) q x) =
      name
      +++ "{"
      +++ with_comma (labels_part labels)
      +++ "quantile=\""
      +++ q
      +++ "\"} "
      +++ b.str_float x
  text_of b (sample_line (name, labels) x) = name +++ label_prefix labels +++ " " +++ b.str_float x

  -- "\n".join(lines) + "\n"
  unfoldable pub document : Builtins F → List (Line F) → String
  document b [] = "\n"
  document b (line ∷ []) = text_of b line +++ "\n"
  document b (line ∷ next ∷ rest) = text_of b line +++ "\n" +++ document b (next ∷ rest)

  -- `MetricsRegistry.render`
  unfoldable pub render : Builtins F → MetricsRegistry F → Result String
  render b r = do lines ← render_lines b r; ok (document b lines)

  -- `_MetricsHandler.do_GET`
  unfoldable pub do_get : Builtins F → MetricsRegistry F → String → Result Response
  do_get b r path =
      if path == "/metrics"
      then (do
        body ← render b r
        ok (record {
          status = 200;
          content_type = some "text/plain; version=0.0.4; charset=utf-8";
          body = body;
        }))
      else if path == "/healthz"
      then ok (record { status = 200; content_type = none; body = "ok\n" })
      else ok (record { status = 404; content_type = none; body = "" })
