-- ===== src/Parser/Token.antt =====
-- engine/parser/lexer.go: the tokens and their numbers (the iota of the source).
use ramsql.Base.{ℕ, List, [], ◌∷◌, Bool, false, ◌||◌, ◌==◌}
use ramsql.Base.Bytes.{Bytes}

-- Token
pub record Token : Type 0 where
  pub kind : ℕ
  pub lexeme : Bytes

abbrev pub token : ℕ → Bytes → Token
token k s = record { kind = k; lexeme = s }

abbrev pub space_token : ℕ
space_token = 0

abbrev pub semicolon_token : ℕ
semicolon_token = 1

abbrev pub comma_token : ℕ
comma_token = 2

abbrev pub bracket_opening_token : ℕ
bracket_opening_token = 3

abbrev pub bracket_closing_token : ℕ
bracket_closing_token = 4

abbrev pub left_diple_token : ℕ
left_diple_token = 5

abbrev pub right_diple_token : ℕ
right_diple_token = 6

abbrev pub less_or_equal_token : ℕ
less_or_equal_token = 7

abbrev pub greater_or_equal_token : ℕ
greater_or_equal_token = 8

abbrev pub backtick_token : ℕ
backtick_token = 9

abbrev pub double_quote_token : ℕ
double_quote_token = 10

abbrev pub simple_quote_token : ℕ
simple_quote_token = 11

abbrev pub star_token : ℕ
star_token = 12

abbrev pub equality_token : ℕ
equality_token = 13

abbrev pub distinctness_token : ℕ
distinctness_token = 14

abbrev pub period_token : ℕ
period_token = 15

abbrev pub create_token : ℕ
create_token = 16

abbrev pub select_token : ℕ
select_token = 17

abbrev pub insert_token : ℕ
insert_token = 18

abbrev pub update_token : ℕ
update_token = 19

abbrev pub delete_token : ℕ
delete_token = 20

abbrev pub explain_token : ℕ
explain_token = 21

abbrev pub truncate_token : ℕ
truncate_token = 22

abbrev pub drop_token : ℕ
drop_token = 23

abbrev pub grant_token : ℕ
grant_token = 24

abbrev pub distinct_token : ℕ
distinct_token = 25

abbrev pub from_token : ℕ
from_token = 26

abbrev pub where_token : ℕ
where_token = 27

abbrev pub table_token : ℕ
table_token = 28

abbrev pub schema_token : ℕ
schema_token = 29

abbrev pub current_schema_token : ℕ
current_schema_token = 30

abbrev pub into_token : ℕ
into_token = 31

abbrev pub values_token : ℕ
values_token = 32

abbrev pub join_token : ℕ
join_token = 33

abbrev pub as_token : ℕ
as_token = 34

abbrev pub on_token : ℕ
on_token = 35

abbrev pub if_token : ℕ
if_token = 36

abbrev pub not_token : ℕ
not_token = 37

abbrev pub exists_token : ℕ
exists_token = 38

abbrev pub null_token : ℕ
null_token = 39

abbrev pub unsigned_token : ℕ
unsigned_token = 40

abbrev pub autoincrement_token : ℕ
autoincrement_token = 41

abbrev pub count_token : ℕ
count_token = 42

abbrev pub set_token : ℕ
set_token = 43

abbrev pub order_token : ℕ
order_token = 44

abbrev pub by_token : ℕ
by_token = 45

abbrev pub with_token : ℕ
with_token = 46

abbrev pub time_token : ℕ
time_token = 47

abbrev pub zone_token : ℕ
zone_token = 48

abbrev pub returning_token : ℕ
returning_token = 49

abbrev pub in_token : ℕ
in_token = 50

abbrev pub and_token : ℕ
and_token = 51

abbrev pub or_token : ℕ
or_token = 52

abbrev pub asc_token : ℕ
asc_token = 53

abbrev pub desc_token : ℕ
desc_token = 54

abbrev pub limit_token : ℕ
limit_token = 55

abbrev pub is_token : ℕ
is_token = 56

abbrev pub for_token : ℕ
for_token = 57

abbrev pub default_token : ℕ
default_token = 58

abbrev pub local_timestamp_token : ℕ
local_timestamp_token = 59

abbrev pub false_token : ℕ
false_token = 60

abbrev pub unique_token : ℕ
unique_token = 61

abbrev pub now_token : ℕ
now_token = 62

abbrev pub offset_token : ℕ
offset_token = 63

abbrev pub index_token : ℕ
index_token = 64

abbrev pub collate_token : ℕ
collate_token = 65

abbrev pub nocase_token : ℕ
nocase_token = 66

abbrev pub text_token : ℕ
text_token = 67

abbrev pub int_token : ℕ
int_token = 68

abbrev pub primary_token : ℕ
primary_token = 69

abbrev pub key_token : ℕ
key_token = 70

abbrev pub string_token : ℕ
string_token = 71

abbrev pub decimal_token : ℕ
decimal_token = 72

abbrev pub number_token : ℕ
number_token = 73

abbrev pub date_token : ℕ
date_token = 74

abbrev pub float_token : ℕ
float_token = 75

abbrev pub arg_token : ℕ
arg_token = 76

abbrev pub named_arg_token : ℕ
named_arg_token = 77

-- The test that `is` makes of the current token.
unfoldable pub one_of : ℕ → List ℕ → Bool
one_of k [] = false
one_of k (j ∷ js) = k == j || one_of k js
