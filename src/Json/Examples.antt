-- ===== src/Json/Examples.antt =====
-- The theorems on JSON at small inputs, with doubles that are whole numbers.
use samryetha_tunnel.Base.{ℕ, ◌*◌, suc, ◌≡◌, ◌≤◌, refl, true, some, [], ◌∷◌, length}
use samryetha_tunnel.Base.Int.{ℤ, pos, negsuc, show_ℤ, atoi, is_digit}
use samryetha_tunnel.Base.Order.{bytes_less}
use samryetha_tunnel.Base.Text.{Bytes, codes}
use samryetha_tunnel.Json.Number.{Doubles}
use samryetha_tunnel.Json.Print.{write_number, dump}
use samryetha_tunnel.Json.Value.{
  J, nul, boolean, number, string, array, object, nil, item, end, member,
}
use samryetha_tunnel.Json.Parse.{is_number_char, parse_value, parse}
use samryetha_tunnel.Json.Parse.Faithful.{IsFaithful}
use samryetha_tunnel.Json.Parse.Total.{parse_value_total}
use samryetha_tunnel.Json.Parse.RoundTrip.{parse-dump}

abbrev absolute : ℤ → ℕ
absolute (pos n) = n
absolute (negsuc n) = suc n

abbrev whole_doubles : Doubles
whole_doubles = record {
  Double = ℤ;
  of_int = λ n. n;
  to_uint = absolute;
  to_int = λ n. n;
  is_whole = λ n. true;
  print = show_ℤ;
  stod = λ s. some (atoi s);
}

abbrev nested : Bytes
nested = codes "{\"a\":[[1,true"

parse_value_total_example :
    (v : J ℤ) × (r : Bytes) × (parse_value whole_doubles (suc (length nested * 2)) nested
      ≡ some (v, r))
    × (parse whole_doubles nested ≡ v)
    × (length r ≤ length nested)
parse_value_total_example = parse_value_total whole_doubles nested

abbrev reply : J ℤ
reply = object (
    member (codes "ok") (boolean true) (
      member (codes "say \"hi\"\n")
        (array (item (number (pos 12)) (item nul (item (string (codes "x")) nil)))) end))

parse-dump_example : parse whole_doubles (dump whole_doubles reply) ≡ reply
unfolding IsFaithful bytes_less write_number show_ℤ is_number_char is_digit atoi
parse-dump_example = parse-dump whole_doubles reply (
  ((refl, tt), (tt, tt)),
  (tt, (((b'1', b'2' ∷ [], refl, (refl, (refl, tt)), refl), (tt, (tt, tt))), tt)),
)
