-- ===== src/Seed.antt =====
-- src/tasker_rfid/seed.py: the rows of two CSV files are checked, all of them, and then written in one
-- transaction. A problem is a constructor with its row number. `str.lower`, `str.isdigit` and `int`
-- are the fields of `Texts`; reading the files is left out, and so is the column updated_at, which a
-- trigger stamps at every write.
pub mod Loading
mod Examples
use tasker_rfid.Prelude.{
  ℕ, ◌+◌, String, Bool, true, false, not, ◌&&◌, ◌||◌, Option, none, some, List, [], ◌∷◌, ◌++◌, map,
  elem, any, flat_map, leb, string_eq, ◌==◌, if◌then◌else◌,
}
use tasker_rfid.Prelude.Results.{Result, ok, err}

-- `int` is `none` where it raises ValueError.
pub record Texts : Type 0 where
  pub lower : String → String
  pub isdigit : String → Bool
  pub int : String → Option ℕ

abbrev pub sku_families : List String
sku_families = "cones" ∷ "cups" ∷ "powder" ∷ "bag_in_box" ∷ "tetra" ∷ "sauce" ∷ "accessories" ∷ []

abbrev pub tag_classes : List String
tag_classes = "paper" ∷ "paper_long" ∷ "on_metal" ∷ []

abbrev pub true_words : List String
true_words = "true" ∷ "t" ∷ "yes" ∷ "y" ∷ "1" ∷ []

abbrev pub false_words : List String
false_words = "false" ∷ "f" ∷ "no" ∷ "n" ∷ "0" ∷ []

-- The cells of a row.
pub record SkuRow : Type 0 where
  pub sku_id : String
  pub name : String
  pub family : String
  pub units_per_box : String
  pub tag_class : String
  pub active : String

pub record CustomerRow : Type 0 where
  pub customer_id : String
  pub name : String
  pub active : String

pub data Problem : Type 0 where
  blank_id duplicate_id blank_name bad_family bad_units bad_tag_class bad_active : ℕ → Problem

-- The rows of the tables.
pub record Sku : Type 0 where
  pub sku_id : String
  pub name : String
  pub family : String
  pub units_per_box : ℕ
  pub tag_class : Option String
  pub active : Bool

pub record Customer : Type 0 where
  pub customer_id : String
  pub name : String
  pub active : Bool

-- `if …: problems.append(…)`
abbrev pub problem_if : Bool → Problem → List Problem
problem_if b p = if b then p ∷ [] else []

-- A key that is blank, or that an earlier row has.
abbrev pub key_problem : ℕ → String → List String → List Problem
key_problem n key seen_ids =
    if key == "" then blank_id n ∷ [] else problem_if (elem key seen_ids) (duplicate_id n)

module _ (texts : Texts) where
  unfoldable pub parse_bool : String → Option Bool
  parse_bool value =
      if elem (texts.lower value) true_words
      then some true
      else if elem (texts.lower value) false_words
      then some false
      else none

  -- The whole number above 0, if there is one.
  abbrev pub units_of : String → Option ℕ
  units_of s =
      if texts.isdigit s
      then elim (texts.int s) [ none ↦ none | some n ↦ if leb n 0 then none else some n ]
      else none

  abbrev pub is_none : {A : Type 0} → Option A → Bool
  is_none none = true
  is_none (some _) = false

  -- `int` raises on a text of digits, such as "²": the check itself fails.
  unfoldable pub check_raises : List SkuRow → Bool
  check_raises =
      any (λ row. texts.isdigit row.units_per_box && is_none (texts.int row.units_per_box))

  unfoldable pub sku_problems : ℕ → List String → SkuRow → List Problem
  unfolding parse_bool
  sku_problems n seen_ids row =
      flat_map (λ ps. ps)
        (key_problem n row.sku_id seen_ids
          ∷ problem_if (row.name == "") (blank_name n)
          ∷ problem_if (not (elem row.family sku_families)) (bad_family n)
          ∷ problem_if (is_none (units_of row.units_per_box)) (bad_units n)
          ∷ problem_if (not (row.tag_class == "") && not (elem row.tag_class tag_classes))
              (bad_tag_class n)
          ∷ problem_if (is_none (parse_bool row.active)) (bad_active n)
          ∷ [])

  unfoldable pub check_skus_from : ℕ → List String → List SkuRow → List Problem
  unfolding sku_problems
  check_skus_from n seen_ids [] = []
  check_skus_from n seen_ids (row ∷ rows) =
      sku_problems n seen_ids row ++ check_skus_from (n + 1) (row.sku_id ∷ seen_ids) rows

  abbrev pub check_skus : List SkuRow → List Problem
  check_skus = check_skus_from 2 []

  unfoldable pub customer_problems : ℕ → List String → CustomerRow → List Problem
  unfolding parse_bool
  customer_problems n seen_ids row =
      flat_map (λ ps. ps)
        (key_problem n row.customer_id seen_ids
          ∷ problem_if (row.name == "") (blank_name n)
          ∷ problem_if (is_none (parse_bool row.active)) (bad_active n)
          ∷ [])

  unfoldable pub check_customers_from : ℕ → List String → List CustomerRow → List Problem
  unfolding customer_problems
  check_customers_from n seen_ids [] = []
  check_customers_from n seen_ids (row ∷ rows) =
      customer_problems n seen_ids row
      ++ check_customers_from (n + 1) (row.customer_id ∷ seen_ids) rows

  abbrev pub check_customers : List CustomerRow → List Problem
  check_customers = check_customers_from 2 []

  abbrev pub or_zero : Option ℕ → ℕ
  or_zero none = 0
  or_zero (some n) = n

  abbrev pub or_false : Option Bool → Bool
  or_false none = false
  or_false (some b) = b

  -- The rows have been checked, so that the number and the word are there.
  unfoldable pub sku_params : SkuRow → Sku
  sku_params row = record {
    sku_id = row.sku_id;
    name = row.name;
    family = row.family;
    units_per_box = or_zero (texts.int row.units_per_box);
    tag_class = if row.tag_class == "" then none else some row.tag_class;
    active = or_false (parse_bool row.active);
  }

  unfoldable pub customer_params : CustomerRow → Customer
  customer_params row = record {
    customer_id = row.customer_id;
    name = row.name;
    active = or_false (parse_bool row.active);
  }

-- INSERT … ON CONFLICT (key) DO UPDATE SET all the rest
module _ {A : Type 0} (key : A → String) where
  unfoldable pub upsert : A → List A → List A
  upsert r [] = r ∷ []
  upsert r (x ∷ xs) = if key x == key r then r ∷ xs else x ∷ upsert r xs

  unfoldable pub upsert_all : List A → List A → List A
  unfolding upsert
  upsert_all [] table = table
  upsert_all (r ∷ rs) table = upsert_all rs (upsert r table)

pub record Tables : Type 0 where
  pub skus : List Sku
  pub customers : List Customer

abbrev pub sku_key : Sku → String
sku_key s = s.sku_id

abbrev pub customer_key : Customer → String
customer_key c = c.customer_id

-- How the script ends without writing.
pub data Stop : Type 0 where
  value_error : Stop
  problems : List Problem → Stop

-- From the rows of the two files to the tables, in one transaction.
unfoldable pub seed : Texts → List SkuRow → List CustomerRow → Tables → Result Stop Tables
unfolding check_raises check_skus_from check_customers_from sku_params customer_params upsert_all
seed texts skus customers t =
    if check_raises texts skus
    then err value_error
    else elim (check_skus texts skus ++ check_customers texts customers) [
      | p ∷ ps ↦ err (problems (p ∷ ps))
      | [] ↦ ok (record {
        skus = upsert_all sku_key (map (sku_params texts) skus) t.skus;
        customers = upsert_all customer_key (map (customer_params texts) customers) t.customers;
      })
    ]
