-- ===== src/Manager.antt =====
-- pkg/controllers/statelessloadbalancer/manager.go: it keeps the services, flows and targets of a
-- load balancer in step with what it is given. Its mutex is held from the first line of a method
-- to its return, so a call is one step. Each method is a child.
pub mod Slices
pub mod Services
pub mod Flows
pub mod Targets
pub mod Tests
use l_3_4_gateway_api_poc.Base.{◌≡◌, Bool, List, [], Option, some, Text, codes, ◌++◌, ℤ}
use l_3_4_gateway_api_poc.Endpoints.{Endpoint}

-- The fields of `v1alpha1.L34Route` that are read.
pub record L34Route : Type 0 where
  pub name : Text
  pub backend_refs : List Text
  pub source_cidrs : List Text
  pub destination_cidrs : List Text
  pub source_ports : List Text
  pub destination_ports : List Text
  pub protocols : List Text
  pub priority : ℤ
  pub byte_matches : List Text

-- `flowImpl`, on the services of a type `S`
pub record FlowImpl {ℓ} (S : Type ℓ) : Type ℓ where
  pub l34_route : L34Route
  pub service : S

-- `LoadBalancerInstance` and `ServiceInstance`: each call acts on a state of its own. `false`
-- stands for an error.
pub record LoadBalancerInstance : Type 1 where
  pub World : Type 0
  pub ServiceInstance : Type 0
  pub get_name : ServiceInstance → Text
  pub add_service : Text → World → Option ServiceInstance × World
  pub delete_service : Text → World → Bool × World
  pub add_flow : ServiceInstance → FlowImpl ServiceInstance → World → Bool × World
  pub delete_flow : ServiceInstance → FlowImpl ServiceInstance → World → Bool × World
  pub add_target : ServiceInstance → List Text → ℤ → World → Bool × World
  pub delete_target : ServiceInstance → List Text → ℤ → World → Bool × World

-- A service that the load balancer adds has the name that it was added with.
abbrev pub KeepsNames : LoadBalancerInstance → Type 0
KeepsNames lb =
    (name : Text) (w : lb.World) (s : lb.ServiceInstance)
    → (lb.add_service name w).0 ≡ some s
    → lb.get_name s ≡ name

-- The errors of a call, the newest first.
pub data ManagerError : Type 0 where
  delete_service_failed add_service_failed add_flow_failed delete_flow_failed : ManagerError
  add_target_failed delete_target_failed service_not_existing : ManagerError

pub record Manager (S : Type 0) : Type 0 where
  -- key: service name
  pub services : List (Text × S)
  pub flows : List (Text × FlowImpl S)
  -- key: service name
  pub endpoints : List (Text × List Endpoint)

unfoldable pub new_manager : {S : Type 0} → Manager S
new_manager = record { services = []; flows = []; endpoints = [] }

module _ (lb : LoadBalancerInstance) where
  open lb use {ServiceInstance, get_name}

  -- `flowImpl.GetName`
  unfoldable pub flow_name : FlowImpl ServiceInstance → Text
  flow_name f = f.l34_route.name ++ codes "." ++ get_name f.service
