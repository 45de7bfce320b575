-- ===== src/Tests/Forms.antt =====
-- Form values, streams and requests at concrete inputs.
use lemo.Base.{
  Bytes, codes, ℕ, suc, ◌≡◌, refl, false, List, [], ◌∷◌, ◌++◌, Option, none, some, ok, concat, map,
  inr,
}
use lemo.Http.Store.{Store, has, all, index_of, at_index, add, remove}
use lemo.Http.Store.Entries.{
  Entry, of_entries, under, first_of, is_some_list, without_first, store_refines,
}
use lemo.Http.Json.{JsonLibrary}
use lemo.Http.Stream
use lemo.Http.Stream.{auto_parse, auto_get, new_stream}
use lemo.Http.Stream.Parsed.{IsParser, Carries, auto_get-auto_parse}
use lemo.Http.Request
use lemo.Http.Request.Make.{form, json, some_request, with_body, marshal_all}
use lemo.Http.Request.ContentType.{form_and_json, join, pair_text}

abbrev name : Bytes
name = codes "name"

-- Two entries under one key, as two files of a form may have.
abbrev names : Store
names = record {
  keys = name ∷ codes "age" ∷ name ∷ [];
  values = (codes "a" ∷ codes "b" ∷ []) ∷ (codes "7" ∷ []) ∷ (codes "c" ∷ []) ∷ [];
}

store_refines_example :
    (es : List Entry) × (names ≡ of_entries es)
    × (has names name ≡ is_some_list (under name es))
    × (all names name ≡ ok (concat (under name es)))
    × ((i : ℕ) → index_of names name i ≡ at_index i (first_of (under name es)))
    × ((value : List Bytes) → add names name value ≡ of_entries (es ++ ((name, value) ∷ [])))
    × (remove names name ≡ ok (of_entries (without_first name es)))
store_refines_example = store_refines names name refl

-- Libraries over a state that counts their calls: a query parses to one pair, JSON is its text.
abbrev json_library : JsonLibrary Bytes Bytes Bytes
json_library = record {
  parse = λ body. elim body [ none ↦ [] | some b ↦ b ];
  part = λ j key. j ++ key;
  is_error = λ j. false;
  text = λ j. j;
  size = λ j. 0;
  element = λ j i. j;
  marshal = λ x. inr x;
}

abbrev library : Stream.Library ℕ ℕ Bytes Bytes
library = record {
  to_upper = λ s. s;
  parse_query = λ s. some ((name, s ∷ []) ∷ []);
  parse_form = λ n. (some ((name, codes "lemo" ∷ []) ∷ []), suc n);
  parse_multipart = λ max n. (none, suc n);
  read_body = λ n. (some (codes "{}"), suc n);
  json = json_library;
  split_host_port = λ s. some s;
  set_header = λ k v n. n;
  write = λ b n. (none, n);
}

parser : IsParser library
parser = record {
  query_values = λ s. ((s, [], refl), tt);
  form_values = λ w. ((codes "lemo", [], refl), tt);
  multipart_values = λ n w. tt;
}

abbrev posted : Stream.Request
posted = record {
  method = codes "POST";
  header = λ k. codes "application/x-www-form-urlencoded; charset=utf-8";
  path = codes "/hello";
  raw_query = [];
  fragment = [];
  host = codes "localhost";
  remote_addr = codes "127.0.0.1:1";
  is_tls = false;
}

auto_get-auto_parse_example :
    let (s, w') = auto_parse library (new_stream library posted) 0 in
    (v : Option Bytes) × (s' : Stream.Stream library) × Carries library posted 0 name v
    × (auto_get library s name ≡ ok (v, s'))
auto_get-auto_parse_example = auto_get-auto_parse library parser posted 0 name

abbrev requests : Request.Library Bytes Bytes Bytes Bytes Bytes Bytes
requests = record {
  canonical = λ k. k;
  to_lower = λ s. s;
  text = λ v. v;
  marshal = λ x. inr x;
  parse_url = λ u. inr u;
  raw_query = λ u. [];
  with_raw_query = λ u q. u ++ q;
  url_text = λ u. u;
  encode = λ ps. [];
  new_writer = [];
  write_field = λ k v m. inr m;
  close_writer = λ m. inr m;
  written = λ m. m;
  form_data_content_type = λ m. codes "multipart/form-data";
  new_request = λ method url body. inr (method ++ (url ++ body));
  cookie_text = λ c. c;
}

abbrev fields : List (List (Bytes × Bytes))
fields = ((codes "a", codes "1") ∷ (codes "b", codes "2") ∷ []) ∷ []

abbrev info : Request.Info Bytes Bytes Bytes
info = Request.new_info requests (codes "POST") (codes "/")

form_and_json_example :
    ((form requests info fields).0
      ≡ some_request requests (
          requests.new_request
            (codes "POST")
            (codes "/")
            (join (codes "&") (map (pair_text requests) (concat fields)))))
    × ((json requests info (codes "{}" ∷ [])).0
        ≡ with_body requests (codes "POST") (codes "/") (marshal_all requests (codes "{}" ∷ [])))
form_and_json_example = form_and_json requests info fields (codes "{}" ∷ []) tt (refl, refl)
