-- ===== src/Link/Secure/Connect/Tests.antt =====
-- A connection with the gateway of the boot file.
use cdk.Prelude.{true, none, some}
use cdk.Link.Secure.Session.Toy.{toy}
use cdk.Link.Secure.Handshake.{identity_bytes}
use cdk.Link.Secure.Handshake.Toy.{total, sums, ours, identity, sign, trust, answer}
use cdk.Link.Secure.Connect.{Surroundings, LinkState, secure_connect_inner}
use cdk.Link.Secure.Connect.Branches.{Connects, secure_connect_inner_lem}

abbrev around : Surroundings
around = record {
  transport = true;
  gateway_file = some (identity_bytes (identity 1));
  me = identity 0;
  sign = sign;
  verify_hybrid = trust;
  random = ours;
  hello_sent = true;
  answer = some answer;
  finish_sent = true;
}

abbrev start : LinkState sums toy total
start = record { session = none; epoch = 0 }

secure_connect_inner_lem_example :
    Connects sums toy total around start (secure_connect_inner sums toy total around start)
secure_connect_inner_lem_example = secure_connect_inner_lem sums toy total around start
