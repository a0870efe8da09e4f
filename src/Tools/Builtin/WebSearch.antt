-- ===== src/Tools/Builtin/WebSearch.antt =====
-- web_search.go. HTTP, addresses and JSON are the record `Web`; a float64 is its bits.
use Prim.Native.String.{◌++◌ as ◌+++◌}
use go_agent_api.Base.{
  ℕ, ◌+◌, ◌/◌, ◌%◌, ◌^◌, String, false, ◌&&◌, Option, none, some, List, [], ◌∷◌, ltb, leb, ◌==◌,
  str_eq, length, if◌then◌else◌,
}
use go_agent_api.Base.Exec.{Result, ok, err, message, wrap_result}
use go_agent_api.Base.Table.{lookup}
use go_agent_api.Entity.Any.{
  Any, Items, Fields, Object, null, text, number, array, object, last, item, field, end, text_of,
}
use go_agent_api.Tools.Spec.{ToolSpec, text_property, new_tool}
use go_agent_api.Tools.Registry.{History, Tool}
use go_agent_api.Llm.Client.{HttpRequest, HttpResponse, ◌then_try◌}

-- The float64 bits of 1, 2, 4, 8 and 10.
abbrev pub one : ℕ
one = 0x3ff0000000000000

abbrev pub two : ℕ
two = 0x4000000000000000

abbrev pub four : ℕ
four = 0x4010000000000000

abbrev pub eight : ℕ
eight = 0x4020000000000000

abbrev pub ten : ℕ
ten = 0x4024000000000000

-- `int(n)`, of a float64 from 1 to 10: the significand without its fraction.
unfoldable pub int_of : ℕ → ℕ
int_of n =
    let significand = 2 ^ 52 + n % 2 ^ 52 in
    if ltb n two
    then significand / 2 ^ 52
    else if ltb n four
    then significand / 2 ^ 51
    else if ltb n eight
    then significand / 2 ^ 50
    else significand / 2 ^ 49

-- `n >= 1 && n <= 10`: the bits of positive numbers are in the order of the numbers.
abbrev pub count_from : Option Any → ℕ
count_from (some (number n)) = if leb one n && leb n ten then int_of n else 5
count_from _ = 5

unfoldable pub num_results : Object → ℕ
unfolding int_of
num_results args = count_from (lookup "num_results" args)

-- m[key] of a decoded object, where the last entry of a key counts
find_field : String → Fields → Option Any
find_field key end = none
find_field key (field name v rest) = elim (find_field key rest) [
  | some later ↦ some later
  | none ↦ if str_eq name key then some v else none
]

-- getString
unfoldable pub get_string : Fields → String → String
unfolding find_field
get_string m key = text_of (find_field key m)

unfoldable pub result_of : Fields → Any
unfolding get_string
result_of r = object (
    field "title" (text (get_string r "title")) (
      field "url" (text (get_string r "url"))
        (field "description" (text (get_string r "description")) end)))

-- the loop of formatResults, which leaves out what is no object
unfoldable pub results_of : Items → List Any
unfolding result_of
results_of last = []
results_of (item (object r) rest) = result_of r ∷ results_of rest
results_of (item _ rest) = results_of rest

abbrev pub array_of : List Any → Items
array_of [] = last
array_of (v ∷ rest) = item v (array_of rest)

abbrev results_in : Option Any → List Any
results_in (some (array items)) = results_of items
results_in _ = []

abbrev web_results : Option Any → List Any
web_results (some (object web)) = results_in (find_field "results" web)
web_results _ = []

-- formatResults; `bits` are those of an int as a JSON number
unfoldable pub format_results : (ℕ → ℕ) → Fields → Any
unfolding results_of find_field
format_results bits raw =
    let results = web_results (find_field "web" raw) in
    object (
      field "results" (array (array_of results))
        (field "count" (number (bits (length results))) end))

pub record WebSearchTool : Type 0 where
  pub api_key : String
  pub base_url : String

-- net/url, net/http and encoding/json, as the search uses them
pub record Web : Type 0 where
  -- an address with the parameters "q" and "count"
  pub with_query : String → String → String → String
  -- http.NewRequestWithContext, and httpClient.Do
  pub create : HttpRequest → Result HttpRequest
  pub exchange : History → HttpRequest → Result HttpResponse
  pub decode : String → Result Fields
  -- a number as `%d` prints it, and as a float64
  pub decimal : ℕ → String
  pub float : ℕ → ℕ

module _ (tool : WebSearchTool) (web : Web) where
  abbrev read_results : HttpResponse → Result Any
  read_results resp =
      if resp.status == 200
      then (wrap_result "decode response" (web.decode resp.text) then_try λ raw.
          ok (format_results web.float raw))
      else err (message ("search API returned status " +++ web.decimal resp.status))

  -- Execute
  unfoldable pub search : History → Object → Result Any
  unfolding num_results format_results
  search h args =
      let query = text_of (lookup "query" args) in
      if str_eq query ""
      then err (message "query is required")
      else wrap_result "create request" (
          web.create (record {
            method = "GET";
            url = web.with_query tool.base_url query (web.decimal (num_results args));
            headers = ("X-Subscription-Token", tool.api_key) ∷ ("Accept", "application/json") ∷ [];
            body = "";
          }))
        then_try λ req.
            wrap_result "search request failed" (web.exchange h req) then_try read_results

unfoldable pub web_search_definition : (ℕ → ℕ) → ToolSpec
unfolding new_tool
web_search_definition bits =
    new_tool "web_search"
      "Search the web for current information. Use this when you need up-to-date information, facts you're unsure about, or to verify claims."
      (some (record {
        kind = "object";
        description = "";
        properties =
            (
              "query",
              text_property "string" "The search query. Be specific and use relevant keywords."
                  null,
            )
            ∷ (
              "num_results",
              text_property "integer" "Number of results to return (1-10). Default is 5."
                  (number (bits 5)),
            )
            ∷ [];
        required = "query" ∷ [];
        additional_properties = none;
      }))

-- NewWebSearchTool, with the defaults of BaseTool
unfoldable pub new_web_search_tool : String → WebSearchTool
new_web_search_tool api_key = record {
  api_key = api_key;
  base_url = "https://api.search.brave.com/res/v1/web/search";
}

unfoldable pub web_search_tool : WebSearchTool → Web → Tool
unfolding search web_search_definition
web_search_tool tool web = record {
  name = "web_search";
  description =
      "Search the web for current information. Use this when you need up-to-date information, facts you're unsure about, or to verify claims.";
  definition = web_search_definition web.float;
  execute = search tool web;
  requires_approval = false;
  validate = λ args. none;
}
