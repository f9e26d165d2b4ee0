-- ===== src/Examples/Payloads.antt =====
-- One step of a workflow.
use forgery.Base.{Str, text, Bool, map, [], ◌≡◌, false, some}
use forgery.Payload.Tree.{Node, nil, cons, str_node, map_node, mapping_value, set_with_input}
use mathlib.Core.Bool.{false≢true}
use forgery.Payload.Tree.Inputs.{input_in, set_with_input_lem}
use forgery.Payload.Urls.{flagged, normalize_text, rewrite_node}
use forgery.Payload.Urls.Values.{events, rewritten, any_differs, rewrite_node_lem}

-- uses: actions/checkout@v4, with: ref: main
abbrev step : Node
step = map_node (
    cons (str_node (text "uses")) (
      cons (str_node (text "actions/checkout@v4")) (
        cons (str_node (text "with")) (
          cons (map_node (cons (str_node (text "ref")) (cons (str_node (text "main")) nil))) nil))))

abbrev url : Str
url = text "https://one"

set_with_input_lem_example :
    (input_in
        (text "github-server-url")
        (mapping_value (set_with_input step (text "github-server-url") url).1 (text "with"))
      ≡ some url)
    × (set_with_input
          (set_with_input step (text "github-server-url") url).1
          (text "github-server-url")
          url
        ≡ (false, (set_with_input step (text "github-server-url") url).1))
set_with_input_lem_example =
    set_with_input_lem step (text "github-server-url") url
      (λ h. false≢true h, (λ h. record {}, record {}))

-- run: echo ${{ github.server_url }}
abbrev echo : Node
echo =
    map_node
      (cons (str_node (text "run")) (cons (str_node (text "echo ${{ github.server_url }}")) nil))

abbrev rewritten_echo : Node × Bool
rewritten_echo = rewrite_node (flagged (normalize_text url (text "o/r"))) echo false

rewrite_node_lem_example :
    (events rewritten_echo.0 []
      ≡ map (rewritten (normalize_text url (text "o/r"))) (events echo []))
    × (rewritten_echo.1 ≡ any_differs (normalize_text url (text "o/r")) (events echo []))
rewrite_node_lem_example = rewrite_node_lem (normalize_text url (text "o/r")) echo
