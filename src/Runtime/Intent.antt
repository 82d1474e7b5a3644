-- ===== src/Runtime/Intent.antt =====
-- `_work_intent` of runtime.py: the mode of a request and its first tasks.
use s13code.Prelude.{
  ℕ, suc, String, Bool, true, false, not, ◌&&◌, Option, none, some, List, [], ◌∷◌, decimal,
  text_append, if◌then◌else◌,
}
use s13code.Json.{Fields, num, str, end, field}
use s13code.Graph.Types.{TaskSpec}

-- What the regular expressions and word tests find in the prompt: group(1) and group(2) of
-- `index_directory`, group(1) of the others, with the dots stripped that the code strips.
pub record Found : Type 0 where
  pub index_directory : Option (String × String)
  pub index_file : Option String
  pub read_file : Option String
  pub birthday : Bool
  pub reminder : Bool
  pub urls : List String
  pub asks_page : Bool
  pub quoted_search : Option String
  pub cities : Option (List String)
  pub structured : Bool
  pub family_friendly : Bool
  pub weather : Bool

abbrev pub task : String → String → Fields → TaskSpec
task id skill input = record { id = id; skill = skill; input = input; metadata = end }

abbrev pub agent_task : String → String → Fields → String → TaskSpec
agent_task id skill input agent = record {
  id = id;
  skill = skill;
  input = input;
  metadata = field "agent" (str agent) end;
}

abbrev pub one_field : String → String → Fields
one_field key value = field key (str value) end

-- `f"{prefix}{i + 1}"`
abbrev pub numbered : String → ℕ → String
numbered prefix i = text_append prefix (decimal (suc i))

abbrev fetches : ℕ → List String → List TaskSpec
fetches i [] = []
fetches i (url ∷ urls) =
    task (numbered "fetch_" i) "fetch_url" (one_field "url" url) ∷ fetches (suc i) urls

abbrev city_query : Bool → String → String
city_query true city = text_append "current population and population growth rate of " city
city_query false city = text_append "current population of " city

abbrev city_searches : Bool → ℕ → List String → List TaskSpec
city_searches structured i [] = []
city_searches structured i (city ∷ cities) =
    agent_task (numbered "search_" i) "researcher"
      (field "query" (str (city_query structured city))
        (field "max_results" (num 3) (one_field "subject" city)))
      "researcher"
    ∷ city_searches structured (suc i) cities

abbrev three_results : String → Fields
three_results query = field "query" (str query) (field "max_results" (num 3) end)

abbrev no_url : List String → Bool
no_url [] = true
no_url (url ∷ urls) = false

abbrev recall_first : String → TaskSpec
recall_first prompt = task "recall" "memory_recall" (one_field "query" prompt)

abbrev otherwise_intent : String → Found → String × List TaskSpec
otherwise_intent prompt found =
    if found.family_friendly && found.weather
    then (
      "parallel_search",
      agent_task "search_activities" "researcher"
            (three_results "family-friendly things to do in Tokyo") "activity_researcher"
          ∷ agent_task "search_weather" "researcher"
              (three_results "Tokyo Saturday weather forecast") "weather_researcher"
          ∷ [],
    )
    else ("memory", recall_first prompt ∷ [])

abbrev search_intent : String → Found → String × List TaskSpec
search_intent prompt found = elim found.quoted_search [
  | some query ↦ ("search_fetch", task "search" "web_search" (three_results query) ∷ [])
  | none ↦ elim found.cities [
    | some cities ↦ (
      if found.structured then "structured_population" else "parallel_search",
      city_searches found.structured 0 cities,
    )
    | none ↦ otherwise_intent prompt found
  ]
]

abbrev page_intent : String → Found → String × List TaskSpec
page_intent prompt found =
    if found.birthday && found.reminder
    then ("birthday_reminder", recall_first prompt ∷ [])
    else if not (no_url found.urls) && found.asks_page
    then ("fetch", fetches 0 found.urls)
    else search_intent prompt found

unfoldable pub work_intent : String → Found → String × List TaskSpec
work_intent prompt found = elim found.index_directory [
  | some (suffix, path) ↦ (
    "index_directory",
    task "list_directory" "list_directory" (field "path" (str path) (one_field "suffix" suffix))
        ∷ [],
  )
  | none ↦ elim found.index_file [
    | some path ↦ ("index_file", task "index_file" "index_file" (one_field "path" path) ∷ [])
    | none ↦ elim found.read_file [
      | some path ↦ ("read_file", task "read_file" "read_file" (one_field "path" path) ∷ [])
      | none ↦ page_intent prompt found
    ]
  ]
]
