-- ===== src/Operator/Fragmentation/Reports.antt =====
-- operator/fragmentation.py, the adapters: the theorems on two reported nodes.
use kelpflux.Base.{
  ◌≡◌, refl, some, [], ◌++◌, codes, show_nat, starts_with, text_eq, strip_left, leading_number,
  number_from, starts_with_digit,
}
use kelpflux.Operator.Fragmentation.Parsers.{
  parse_mps_req, parse_node_total_mps, total_entry, total_behind_comma, typed_number, colon_number,
  skip,
}
use kelpflux.Operator.Fragmentation.Adapters.{RestNode, text, joined, total_or_default}
use kelpflux.Operator.Fragmentation.Capacity.{parse_mps_req-show_nat}

-- Ten of a hundred slots in use.
abbrev a_node : RestNode
a_node = record {
  name = codes "n0";
  state = text (codes "IDLE");
  gres = some (text (codes "gpu:rtx4070:1,mps:rtx4070:100"));
  tres_used = text (codes "cpu=4,gres/mps=10");
  gres_used = text [];
}

abbrev drained_node : RestNode
drained_node = record a_node { state = text (codes "IDLE+DRAIN"); tres_used = text [] }

a_node-total : total_or_default 50 a_node.gres ≡ 100
unfolding total_or_default joined parse_node_total_mps total_entry total_behind_comma typed_number
    colon_number skip strip_left starts_with leading_number number_from starts_with_digit text_eq
a_node-total = refl

parse_mps_req-show_nat_example :
    (parse_mps_req (codes "gpu:2," ++ (codes "mps:" ++ (show_nat 75 ++ codes ""))) ≡ 75)
    × (parse_mps_req (codes "gpu:2," ++ (codes "mps=" ++ (show_nat 75 ++ codes ""))) ≡ 75)
unfolding starts_with_digit
parse_mps_req-show_nat_example =
    parse_mps_req-show_nat (codes "gpu:2,") (codes "") 75 refl
      (refl, (refl, (refl, (refl, (refl, (refl, tt))))))
