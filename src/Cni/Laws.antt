-- ===== src/Cni/Laws.antt =====
-- What the operating system documents of files and network namespaces.
use l_3_4_gateway_api_poc.Base.{◌≡◌, ◌∙◌, true, false, Option, none, some, Text}
use l_3_4_gateway_api_poc.Cni.{Host}

-- Two states have the same namespaces, with the same in them.
pub record SameNamespaces (h : Host) (w v : h.World) : Type 0 where
  pub same_get_ns : (t : Text) → h.get_ns t v ≡ h.get_ns t w
  pub same_stat : (t : Text) → h.stat_netns t v ≡ h.stat_netns t w
  pub same_enters : (n : h.Netns) → h.enters n v ≡ h.enters n w
  pub same_inside : (n : h.Netns) → h.inside n v ≡ h.inside n w

-- A file that is created exclusively was not there, holds what is written to it, and is gone once
-- it is removed; files and namespaces are independent.
pub record Lawful (h : Host) : Type 0 where
  pub contents : Text → h.World → Option Text
  pub reads : (p : Text) (w : h.World) → h.read_file p w ≡ contents p w
  pub exclusive : (p d : Text) (w : h.World) → contents p w ≡ some d → (h.create_file p w).0 ≡ false
  pub written :
      (p d : Text) (w : h.World)
      → (h.create_file p w).0 ≡ true
      → (h.write_file p d (h.create_file p w).1).0 ≡ true
      → contents p (h.write_file p d (h.create_file p w).1).1 ≡ some d
  pub closed : (p : Text) (w : h.World) → contents p (h.close_file p w).1 ≡ contents p w
  pub made : (p d : Text) (w : h.World) → contents p (h.mkdir_all d w).1 ≡ contents p w
  pub removed :
      (p d : Text) (w : h.World)
      → contents p w ≡ some d
      → ((h.remove_file p w).0 ≡ true) × (contents p (h.remove_file p w).1 ≡ none)
  pub set-contents :
      (p : Text) (n : h.Netns) (s : h.netlink.World) (w : h.World)
      → contents p (h.set_inside n s w) ≡ contents p w
  pub mkdir-SameNamespaces : (p : Text) (w : h.World) → SameNamespaces h w (h.mkdir_all p w).1
  pub create-SameNamespaces : (p : Text) (w : h.World) → SameNamespaces h w (h.create_file p w).1
  pub write-SameNamespaces : (p d : Text) (w : h.World) → SameNamespaces h w (h.write_file p d w).1
  pub close-SameNamespaces : (p : Text) (w : h.World) → SameNamespaces h w (h.close_file p w).1
  pub remove-SameNamespaces : (p : Text) (w : h.World) → SameNamespaces h w (h.remove_file p w).1
  pub set-inside :
      (n : h.Netns) (s : h.netlink.World) (w : h.World) → h.inside n (h.set_inside n s w) ≡ s
  pub set-get_ns :
      (t : Text) (n : h.Netns) (s : h.netlink.World) (w : h.World)
      → h.get_ns t (h.set_inside n s w) ≡ h.get_ns t w
  pub set-stat :
      (t : Text) (n : h.Netns) (s : h.netlink.World) (w : h.World)
      → h.stat_netns t (h.set_inside n s w) ≡ h.stat_netns t w
  pub set-enters :
      (m n : h.Netns) (s : h.netlink.World) (w : h.World)
      → h.enters m (h.set_inside n s w) ≡ h.enters m w

module _ (h : Host) where
  pub SameNamespaces_trans :
      (u v w : h.World) → SameNamespaces h u v → SameNamespaces h v w → SameNamespaces h u w
  SameNamespaces_trans u v w p q = record {
    same_get_ns = λ t. q.same_get_ns t ∙ p.same_get_ns t;
    same_stat = λ t. q.same_stat t ∙ p.same_stat t;
    same_enters = λ n. q.same_enters n ∙ p.same_enters n;
    same_inside = λ n. q.same_inside n ∙ p.same_inside n;
  }
