-- ===== src/Tests/Types.antt =====
-- Lists of integers and strings, with floats, literals and reprs given by tables.
use js_ng.Prelude.{◌≡◌, refl, true, none, some, str, ◌==◌, str_eq, nat_eq, pos, if◌then◌else◌}
use js_ng.Prelude.Result.{ok, err, value_error}
use js_ng.Types.{Data, Items, list_of, integer, Python, check, from_str, get_js_type}
use js_ng.Types.Laws.{HasType, from_str-HasType}

abbrev no_items : Data
no_items = Data.list Items.nil

-- [[1, 2], []]
abbrev two_lists : Data
two_lists = Data.list (
    Items.cons (Data.list (Items.cons (Data.int (pos 1)) (Items.cons (Data.int (pos 2)) Items.nil)))
      (Items.cons no_items Items.nil))

abbrev table : Python
table = record {
  float_of = λ s. if s == str "0.5" then some 5 else none;
  literal_eval = λ s. if s == str "[[1, 2], []]" then some two_lists else none;
  repr = λ d. str "0.5";
}

accepted : check table (list_of (list_of integer)) (str "[[1, 2], []]") ≡ true
unfolding check str_eq
accepted = refl

from_str-HasType_example :
    (d : Data) × (from_str table (list_of (list_of integer)) (str "[[1, 2], []]") ≡ ok d)
    × HasType (list_of (list_of integer)) d
from_str-HasType_example =
    from_str-HasType table (list_of (list_of integer)) (str "[[1, 2], []]") refl accepted

-- Elements of another class are read from their text; None of a text that is no integer.
half_a_list : from_str table (list_of (list_of integer)) (str "[1, 2]") ≡ err value_error
unfolding from_str str_eq
half_a_list = refl

integers :
    get_js_type table (str "LI") (str "[[1, 2], []]")
    ≡ ok (list_of integer, Data.list (Items.cons Data.nothing (Items.cons Data.nothing Items.nil)))
unfolding get_js_type str_eq
integers = refl
